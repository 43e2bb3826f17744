-- ===== src/Samples/Requests.antt =====
-- Requests to the TVDB at concrete inputs.
use sonarr.Common.{
  ℕ, zero, suc, ◌≤◌, ◌<◌, codes, ltb, true, [], ◌∷◌, Option, some, pos, ◌≡◌, refl, if◌then◌else◌,
}
use sonarr.Parser.Patterns.{atoi, read_digits}
use sonarr.Tvdb.{
  Response, Answers, token_taken, sent, body_closed, slept, max_retries_of, seconds, nanoseconds,
  backoff_delay, round_trip,
}
use sonarr.Tvdb.Retries.{requests, IsPaced, Ends, Refused, round_trip-IsBounded}

abbrev answer : ℕ → Option Response
answer zero = some (record { status_code = 429; retry_after = [] })
answer (suc n) =
    some (record { status_code = if ltb n 1 then 429 else 200; retry_after = codes "5" })

-- Two refusals, the second with a delay of five seconds, and an answer.
abbrev env : Answers
env = record { token = λ _. true; answer = answer; passed = λ _. true }

trace_sample :
    (round_trip env 3).1
    ≡ token_taken
      ∷ sent
      ∷ body_closed
      ∷ slept 1000000000
      ∷ token_taken
      ∷ sent
      ∷ body_closed
      ∷ slept 5000000000
      ∷ token_taken
      ∷ sent
      ∷ []
unfolding round_trip backoff_delay seconds nanoseconds atoi read_digits
trace_sample = refl

round_trip-IsBounded_example :
    let most = suc (max_retries_of (pos 2)) in
    let (res, events) = round_trip env (max_retries_of (pos 2)) in
    (requests events ≤ most)
    × IsPaced events
    × Ends env most (requests events) res
    × ((i : ℕ) → suc i < requests events → Refused env i)
round_trip-IsBounded_example = round_trip-IsBounded env (pos 2)
