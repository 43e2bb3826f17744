-- ===== src/Tvdb/Retries.antt =====
-- How many requests a round trip makes, and how it ends.
use sonarr.Common.{
  ℕ, zero, suc, ◌+◌, ◌-◌, subst, ◌≤◌, ◌<◌, ◌==◌, ==_iff, Bool, true, false, List, [], ◌∷◌, Option,
  none, some, ◌≡◌, ◌≢◌, refl, sym, ap, ◌∙◌, ◌⊎◌, inl, inr, arith, Bool-cases, ℤ,
}
use sonarr.Tvdb.{
  Response, Event, token_taken, sent, body_closed, slept, Answers, max_retries_of, backoff_delay,
  Result, send, after_delay, retry, round_trip,
}

abbrev pub requests : List Event → ℕ
requests [] = 0
requests (sent ∷ es) = suc (requests es)
requests (token_taken ∷ es) = requests es
requests (body_closed ∷ es) = requests es
requests (slept d ∷ es) = requests es

-- Every request has a token of its own right before it.
abbrev pub IsPaced : List Event → Type 0
IsPaced [] = Unit
IsPaced (sent ∷ es) = ⊥
IsPaced (token_taken ∷ []) = ⊥
IsPaced (token_taken ∷ sent ∷ es) = IsPaced es
IsPaced (token_taken ∷ token_taken ∷ es) = ⊥
IsPaced (token_taken ∷ body_closed ∷ es) = ⊥
IsPaced (token_taken ∷ slept d ∷ es) = ⊥
IsPaced (body_closed ∷ es) = IsPaced es
IsPaced (slept d ∷ es) = IsPaced es

-- The response to a request is a 429.
abbrev pub Refused : Answers → ℕ → Type 0
Refused env i = (resp : Response) × (env.answer i ≡ some resp) × (resp.status_code ≡ 429)

module _ (env : Answers) (most : ℕ) where
  -- How `n` requests end: with the last one's response, which is no 429 unless no more may be sent, or
  -- with an error of the limiter, of the transport or of the context.
  abbrev pub Ends : ℕ → Option Response → Type 0
  Ends n (some resp) = (env.answer (n - 1) ≡ some resp) × ((resp.status_code ≢ 429) ⊎ (n ≡ most))
  Ends n none = (env.token n ≡ false) ⊎ (env.answer (n - 1) ≡ none) ⊎ (env.passed (n - 1) ≡ false)

  -- What happens from the request number `n` on.
  record Goes (n : ℕ) (r : Result) : Type 0 where
    bounded : n + requests r.1 ≤ most
    paced : IsPaced r.1
    ends : Ends (n + requests r.1) r.0
    refused : (i : ℕ) → n ≤ suc i → suc i < n + requests r.1 → Refused env i

  -- Nothing is sent any more.
  stops :
      (n : ℕ) (res : Option Response) (es : List Event)
      → requests es ≡ 0
      → IsPaced es
      → n ≤ most
      → Ends n res
      → Goes n (res, es)
  stops n res es none_sent paced l e = record {
    bounded = omega arith;
    paced = paced;
    ends = subst (λ k. Ends k res) (omega arith) e;
    refused = λ i h k. absurd (omega arith);
  }

  send-Goes :
      (n : ℕ) (b : Bool) (o : Option Response) (rest : Response → Result)
      → env.token n ≡ b
      → env.answer n ≡ o
      → n < most
      → ((i : ℕ) → suc i ≡ n → Refused env i)
      → ((resp : Response) → env.answer n ≡ some resp → Goes (suc n) (rest resp))
      → Goes n (send b o rest)
  unfolding send
  send-Goes n false o rest t a l before after = stops n none [] refl tt (omega arith) (inl t)
  send-Goes n true none rest t a l before after = record {
    bounded = omega arith;
    paced = tt;
    ends = inr (inl (ap env.answer (omega arith) ∙ a));
    refused = λ i h k. before i (omega arith);
  }
  send-Goes n true (some resp) rest t a l before after =
      let g = after resp a in
      let e : n + suc (requests (rest resp).1) ≡ suc n + requests (rest resp).1 = omega arith in
      record {
        bounded = rw e g.bounded;
        paced = g.paced;
        ends = subst (λ k. Ends k (rest resp).0) (sym e) g.ends;
        refused = λ i h k. elim (Bool-cases (suc i == n)) [
          | inl f ↦ before i ((==_iff (suc i) n).0 f)
          | inr f ↦ g.refused i (ground arith) (omega (arith, e, k))
        ];
      }

  after_delay-Goes :
      (n delay : ℕ) (b : Bool) (r : Result)
      → env.passed n ≡ b
      → suc n ≤ most
      → Goes (suc n) r
      → Goes (suc n) (after_delay b delay r)
  unfolding after_delay
  after_delay-Goes n delay false r p l g =
      stops (suc n) none (body_closed ∷ []) refl tt l (inr (inr (ap env.passed (omega arith) ∙ p)))
  after_delay-Goes n delay true (res, events) p l g = record {
    bounded = g.bounded;
    paced = g.paced;
    ends = g.ends;
    refused = g.refused;
  }

  retry-Goes :
      (left attempt : ℕ) (resp : Response)
      → env.answer attempt ≡ some resp
      → suc attempt + left ≡ most
      → Goes (suc attempt) (retry env left attempt resp)
  unfolding retry
  retry-Goes zero attempt resp a l =
      stops (suc attempt) (some resp) [] refl tt (omega arith)
        (ap env.answer (omega arith) ∙ a, inr (omega arith))
  retry-Goes (suc left) attempt resp a l = elim (Bool-cases (resp.status_code == 429)) [
    | inr e ↦ simp e (
        stops (suc attempt) (some resp) [] refl tt (omega arith)
          (ap env.answer (omega arith) ∙ a, inl (ground arith)))
    | inl e ↦ simp e (
        after_delay-Goes attempt (backoff_delay resp attempt) (env.passed attempt) _ refl
          (omega arith)
          (send-Goes (suc attempt) (env.token (suc attempt)) (env.answer (suc attempt)) _ refl refl
            (omega arith)
            (λ i h. (resp, ap env.answer (omega arith) ∙ a, (==_iff resp.status_code 429).0 e))
            (λ next b. retry-Goes left (suc attempt) next b (omega arith))))
  ]

-- A round trip sends at most one request and `max_retries` more, each with a token of its own taken
-- right before it; every response but the last is a 429; and it ends with the last response, which
-- is no 429 unless all retries are used up, or with the error of the limiter, of the transport or of
-- a context that ends during a delay.
pub round_trip-IsBounded :
    (env : Answers) (max_retries : ℤ)
    → let most = suc (max_retries_of max_retries) in
      let (res, events) = round_trip env (max_retries_of max_retries) in
      (requests events ≤ most)
      × IsPaced events
      × Ends env most (requests events) res
      × ((i : ℕ) → suc i < requests events → Refused env i)
unfolding round_trip
round_trip-IsBounded env max_retries =
    let most = suc (max_retries_of max_retries) in
    let g =
      send-Goes env most 0 (env.token 0) (env.answer 0) (retry env (max_retries_of max_retries) 0)
        refl refl (omega arith) (λ i h. absurd (omega arith))
        (λ resp a. retry-Goes env most (max_retries_of max_retries) 0 resp a (omega arith)) in
    let n = requests (round_trip env (max_retries_of max_retries)).1 in
    let e : 0 + n ≡ n = omega arith in
    (
      rw e at g.bounded,
      g.paced,
      subst (λ k. Ends env most k (round_trip env (max_retries_of max_retries)).0) e g.ends,
      λ i h. g.refused i (omega arith) (rw e h),
    )
