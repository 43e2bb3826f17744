-- ===== src/DecisionEngine/Engine/Verdict.antt =====
-- What `Evaluate` decides: every rejecting spec is heard, in order.
use mathlib.Core.List.{append-nil, append_assoc}
use sonarr.Common.{List, [], ◌∷◌, ◌++◌, ◌≡◌, ◌≢◌, ◌↔◌, refl, sym, ◌∙◌, ◌⊎◌, inl, inr, All}
use sonarr.Profiles.{QualityProfile}
use sonarr.DecisionEngine.Types.{Decision, accept, reject, Rejection, RemoteEpisode, Spec}
use sonarr.DecisionEngine.Engine.{append_rejections, collect, verdict, evaluate}

-- The reasons that a spec's result contributes.
unfoldable pub reasons : Decision × List Rejection → List Rejection
reasons (accept, r) = []
reasons (reject, r) = r

-- The reasons of all specs, in the order of the specs.
pub all_reasons : List Spec → RemoteEpisode → QualityProfile → List Rejection
all_reasons [] remote profile = []
all_reasons (s ∷ specs) remote profile =
    reasons (s remote profile) ++ all_reasons specs remote profile

append_rejections-reasons :
    (rs : List Rejection) (d : Decision × List Rejection) → append_rejections rs d ≡ rs ++ reasons d
unfolding append_rejections reasons
append_rejections-reasons rs (accept, r) = sym (append-nil rs)
append_rejections-reasons rs (reject, r) = refl

collect-all_reasons :
    (rs : List Rejection) (specs : List Spec) (remote : RemoteEpisode) (profile : QualityProfile)
    → collect rs specs remote profile ≡ rs ++ all_reasons specs remote profile
unfolding collect all_reasons
collect-all_reasons rs [] remote profile = sym (append-nil rs)
collect-all_reasons rs (s ∷ specs) remote profile =
    collect-all_reasons (append_rejections rs (s remote profile)) specs remote profile
    ∙ rw (append_rejections-reasons rs (s remote profile))
        (append_assoc rs (reasons (s remote profile)) (all_reasons specs remote profile))

verdict_reasons :
    (rs : List Rejection) → ((verdict rs).1 ≡ rs) × (((verdict rs).0 ≡ reject) ↔ (rs ≢ []))
unfolding verdict
verdict_reasons [] = (refl, ((λ h. cc), (λ h. absurd (h refl))))
verdict_reasons (r ∷ rs) = (refl, ((λ h e. cc), (λ h. refl)))

-- A release is rejected exactly when some spec gives a reason, and then the rejections are the
-- reasons of every rejecting spec, in the order of the specs; an accepted release has none.
pub evaluate_complete :
    (specs : List Spec) (remote : RemoteEpisode) (profile : QualityProfile)
    → ((evaluate specs remote profile).1 ≡ all_reasons specs remote profile)
      × (((evaluate specs remote profile).0 ≡ reject) ↔ (all_reasons specs remote profile ≢ []))
unfolding evaluate
evaluate_complete specs remote profile =
    rw (collect-all_reasons [] specs remote profile)
      (verdict_reasons (all_reasons specs remote profile))

-- A spec that gives a reason whenever it rejects.
abbrev pub IsHonest : Spec → Type 0
IsHonest s =
    (remote : RemoteEpisode) (profile : QualityProfile)
    → ((s remote profile).0 ≡ accept) ⊎ (reasons (s remote profile) ≢ [])

abbrev pub Accepts : RemoteEpisode → QualityProfile → Spec → Type 0
Accepts remote profile s = (s remote profile).0 ≡ accept

no_reasons : (d : Decision × List Rejection) → d.0 ≡ accept → reasons d ≡ []
unfolding reasons
no_reasons (accept, r) h = refl
no_reasons (reject, r) h = cc

append_eq_nil : (xs ys : List Rejection) → xs ++ ys ≡ [] → xs ≡ []
append_eq_nil [] ys e = refl
append_eq_nil (x ∷ xs) ys e = cc

append-nil_iff :
    (s : Spec) (specs : List Spec) (remote : RemoteEpisode) (profile : QualityProfile)
    → (rest : List Rejection) → IsHonest s
    → (rest ≡ []) ↔ All (Accepts remote profile) specs
    → (reasons (s remote profile) ++ rest ≡ [])
      ↔ (Accepts remote profile s × All (Accepts remote profile) specs)
append-nil_iff s specs remote profile rest h both = (to, from)
  where
    to :
        reasons (s remote profile) ++ rest ≡ []
        → Accepts remote profile s × All (Accepts remote profile) specs
    to e = elim (h remote profile) [
      | inl a ↦ (a, both.0 (rw (no_reasons (s remote profile) a) at e))
      | inr ne ↦ absurd (ne (append_eq_nil (reasons (s remote profile)) rest e))
    ]

    from :
        Accepts remote profile s × All (Accepts remote profile) specs
        → reasons (s remote profile) ++ rest ≡ []
    from a = rw (no_reasons (s remote profile) a.0) (both.1 a.1)

all_reasons-nil_iff :
    (specs : List Spec) (remote : RemoteEpisode) (profile : QualityProfile)
    → All IsHonest specs
    → (all_reasons specs remote profile ≡ []) ↔ All (Accepts remote profile) specs
unfolding all_reasons
all_reasons-nil_iff [] remote profile h = ((λ _. tt), (λ _. refl))
all_reasons-nil_iff (s ∷ specs) remote profile h =
    append-nil_iff s specs remote profile (all_reasons specs remote profile) h.0
      (all_reasons-nil_iff specs remote profile h.1)

verdict-accept_iff : (rs : List Rejection) → ((verdict rs).0 ≡ accept) ↔ (rs ≡ [])
unfolding verdict
verdict-accept_iff [] = ((λ _. refl), (λ _. refl))
verdict-accept_iff (r ∷ rs) = ((λ h. cc), (λ h. cc))

-- Over honest specs a release is accepted exactly when every spec accepts it.
pub evaluate-accept_iff :
    (specs : List Spec) (remote : RemoteEpisode) (profile : QualityProfile)
    → All IsHonest specs
    → ((evaluate specs remote profile).0 ≡ accept) ↔ All (Accepts remote profile) specs
unfolding evaluate
evaluate-accept_iff specs remote profile h =
    rw (collect-all_reasons [] specs remote profile)
      ((λ e. nil_iff.0 (verdict_iff.0 e)), (λ a. verdict_iff.1 (nil_iff.1 a)))
  where
    verdict_iff :
        ((verdict (all_reasons specs remote profile)).0 ≡ accept)
        ↔ (all_reasons specs remote profile ≡ [])
    verdict_iff = verdict-accept_iff (all_reasons specs remote profile)

    nil_iff : (all_reasons specs remote profile ≡ []) ↔ All (Accepts remote profile) specs
    nil_iff = all_reasons-nil_iff specs remote profile h
