-- ===== src/Tvdb.antt =====
-- internal/providers/metadatasource/tvdb/ratelimit.go. The limiter, the inner transport and the timer
-- answer as given, by the number of the attempt; a trace holds what the transport does with them.
-- Durations are whole seconds. The rate of the limiter is golang.org/x/time's concern.
pub mod Retries
use sonarr.Common.{
  ℕ, zero, suc, ◌^◌, ◌*◌, ◌%◌, ltb, leb, ◌==◌, Text, Bool, true, false, not, List, [], ◌∷◌, Option,
  none, some, ℤ, pos, leb_ℤ, pos_part, if◌then◌else◌,
}
use sonarr.Parser.Patterns.{atoi}

pub record Response : Type 0 where
  pub status_code : ℕ
  pub retry_after : Text

pub data Event : Type 0 where
  token_taken sent body_closed : Event
  slept : ℕ → Event

-- What the attempts of one request meet: whether the limiter gives a token before the context ends,
-- the answer or a transport error, and whether the delay passes before the context ends.
pub record Answers : Type 0 where
  pub token : ℕ → Bool
  pub answer : ℕ → Option Response
  pub passed : ℕ → Bool

-- The defaults of NewRateLimitedTransport for the burst and the number of retries.
unfoldable pub burst_of : ℤ → ℕ
burst_of burst = if leb_ℤ burst (pos 0) then 10 else pos_part burst

unfoldable pub max_retries_of : ℤ → ℕ
max_retries_of max_retries = if leb_ℤ max_retries (pos 0) then 3 else pos_part max_retries

-- `strconv.Atoi(raw)` where it succeeds and is not negative.
minus : Option ℕ → Option ℕ
minus (some zero) = some 0
minus _ = none

unfoldable pub seconds : Text → Option ℕ
unfolding atoi minus
seconds [] = none
seconds (c ∷ s) = if c == b'+' then atoi s else if c == b'-' then minus (atoi s) else atoi (c ∷ s)

-- `time.Duration(n) * time.Second` in nanoseconds of 64 bits; a negative timer runs out at once.
unfoldable pub nanoseconds : ℕ → ℕ
nanoseconds n = let d = n * 1000000000 % 2 ^ 64 in if ltb d (2 ^ 63) then d else 0

exponential : ℕ → ℕ
unfolding nanoseconds
exponential attempt = nanoseconds (2 ^ (if ltb 6 attempt then 6 else attempt))

delay_of : Option ℕ → ℕ → ℕ
unfolding nanoseconds exponential
delay_of (some n) attempt = nanoseconds n
delay_of none attempt = exponential attempt

unfoldable pub backoff_delay : Response → ℕ → ℕ
unfolding seconds delay_of
backoff_delay resp attempt = delay_of (seconds resp.retry_after) attempt

-- The response or an error, and the trace.
abbrev pub Result : Type 0
Result = Option Response × List Event

-- A token, a request, and what comes after its response.
send : Bool → Option Response → (Response → Result) → Result
send false answer rest = (none, [])
send true none rest = (none, token_taken ∷ sent ∷ [])
send true (some resp) rest = let (res, events) = rest resp in (res, token_taken ∷ sent ∷ events)

-- The body is closed and the delay passes, unless the context ends.
after_delay : Bool → ℕ → Result → Result
after_delay false delay rest = (none, body_closed ∷ [])
after_delay true delay (res, events) = (res, body_closed ∷ slept delay ∷ events)

-- The rounds of RoundTrip's loop that are left, with the last response.
retry : Answers → ℕ → ℕ → Response → Result
unfolding backoff_delay send after_delay
retry env zero attempt resp = (some resp, [])
retry env (suc left) attempt resp =
    if not (resp.status_code == 429)
    then (some resp, [])
    else after_delay (env.passed attempt) (backoff_delay resp attempt)
        (send (env.token (suc attempt)) (env.answer (suc attempt)) (retry env left (suc attempt)))

unfoldable pub round_trip : Answers → ℕ → Result
unfolding send retry
round_trip env max_retries = send (env.token 0) (env.answer 0) (retry env max_retries 0)
