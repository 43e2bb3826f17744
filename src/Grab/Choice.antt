-- ===== src/Grab/Choice.antt =====
-- Which download client a release goes to.
use sonarr.Common.{
  Text, ◌≤ℤ◌, true, List, [], ◌∷◌, Option, none, some, ◌≡◌, inl, inr, refl, arith, In, ◌↔◌,
  text_eq_iff, Option-cases, subst, sym,
}
use sonarr.Providers.{DownloadClient}
use sonarr.Grab.{Environment, suits, candidates, lowest, choose}

-- The client is enabled and its implementation is registered for the protocol.
abbrev pub Suits : Environment → Text → DownloadClient → Type 0
Suits env protocol c = (c.enable ≡ true) × (env.protocol_of c.implementation ≡ some protocol)

suits_iff :
    (env : Environment) (protocol : Text) (c : DownloadClient)
    → (suits env protocol c ≡ true) ↔ Suits env protocol c
unfolding suits
suits_iff env protocol c = elim (Option-cases (env.protocol_of c.implementation)) [
  | inl e ↦ rw e (ground arith)
  | inr (p, e) ↦ rw e (ground (arith, text_eq_iff p protocol))
]

candidates-In :
    (env : Environment) (protocol : Text) (all : List DownloadClient) (d : DownloadClient)
    → In d (candidates env protocol all) ↔ (In d all × Suits env protocol d)
unfolding candidates
candidates-In env protocol [] d = ((λ m. absurd m), (λ m. m.0))
candidates-In env protocol (c ∷ all) d =
    ground (arith, candidates-In env protocol all d, suits_iff env protocol d)

lowest-In : (best : DownloadClient) (cs : List DownloadClient) → In (lowest best cs) (best ∷ cs)
unfolding lowest
lowest-In best [] = inl refl
lowest-In best (c ∷ cs) = ground (arith, lowest-In c cs, lowest-In best cs)

lowest-le :
    (best : DownloadClient) (cs : List DownloadClient)
    → ((lowest best cs).priority ≤ℤ best.priority)
      × ((d : DownloadClient) → In d cs → (lowest best cs).priority ≤ℤ d.priority)
unfolding lowest
lowest-le best [] = (omega arith, λ d m. absurd m)
lowest-le best (c ∷ cs) = ground (arith, lowest-le c cs, lowest-le best cs)

lowest-all :
    (best : DownloadClient) (cs : List DownloadClient) (d : DownloadClient)
    → In d (best ∷ cs)
    → (lowest best cs).priority ≤ℤ d.priority
lowest-all best cs d (inl e) =
    subst (λ x. (lowest best cs).priority ≤ℤ x.priority) (sym e) ((lowest-le best cs).0)
lowest-all best cs d (inr m) = (lowest-le best cs).1 d m

-- What a choice promises.
abbrev pub IsChoice : Environment → Text → List DownloadClient → Option DownloadClient → Type 0
IsChoice env protocol all none = (d : DownloadClient) → In d all → ¬ Suits env protocol d
IsChoice env protocol all (some c) =
    In c all
    × Suits env protocol c
    × ((d : DownloadClient) → In d all → Suits env protocol d → c.priority ≤ℤ d.priority)

chosen-IsChoice :
    (env : Environment) (protocol : Text) (all cs : List DownloadClient)
    → candidates env protocol all ≡ cs
    → IsChoice env protocol all (choose cs)
unfolding choose
chosen-IsChoice env protocol all [] e =
    λ d m s. subst (In d) e ((candidates-In env protocol all d).1 (m, s))
chosen-IsChoice env protocol all (c ∷ cs) e =
    let (m, s) =
      (candidates-In env protocol all (lowest c cs)).0
        (subst (In (lowest c cs)) (sym e) (lowest-In c cs)) in
    (
      m,
      s,
      λ d n t. lowest-all c cs d (subst (In d) e ((candidates-In env protocol all d).1 (n, t))),
    )

-- A grab chooses an enabled client of the release's protocol with the lowest priority number
-- among these, and chooses none only where there is no such client.
pub choose-IsChoice :
    (env : Environment) (protocol : Text) (all : List DownloadClient)
    → IsChoice env protocol all (choose (candidates env protocol all))
choose-IsChoice env protocol all = chosen-IsChoice env protocol all _ refl
