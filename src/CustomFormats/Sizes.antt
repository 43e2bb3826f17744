-- ===== src/CustomFormats/Sizes.antt =====
-- The size ranges of a `SizeSpecification`: what a well-formed one means, and what a malformed one
-- does.
use mathlib.Core.List.{reverse, reverse-cons, reverse-reverse}
use sonarr.Common.{
  ℕ, ◌<◌, ◌∙◌, ◌+◌, ◌-◌, ◌*◌, ◌^◌, ◌≤◌, ℤ, pos, ◌≤ℤ◌, ◌<ℤ◌, Bool, true, [], ◌∷◌, ◌++◌, Option, none,
  some, Text, codes, text_eq, trim_space, trim_left, ◌≡◌, ◌≢◌, ◌↔◌, ◌⊎◌, refl, ap, arith, All,
}
use sonarr.Parser.Types.{ParsedEpisodeInfo}
use sonarr.CustomFormats.{
  Specification, split_dash, read_decimal, unsigned_gb, to_int64, parse_gb, parse_size_range,
  size_in, match_spec, implementation_of, size,
}

-- A text of decimal digits.
abbrev pub IsDigits : Text → Type 0
IsDigits = All (λ c. (b'0' ≤ c) × (c ≤ b'9'))

-- The number that follows `n` by the digits of a text.
unfoldable pub value_from : ℕ → Text → ℕ
value_from n [] = n
value_from n (c ∷ s) = value_from (n * 10 + (c - b'0')) s

abbrev pub value : Text → ℕ
value = value_from 0

read_decimal-digits :
    (n : ℕ) (s : Text) → IsDigits s → read_decimal true n 0 s ≡ some (value_from n s, 0)
unfolding read_decimal value_from
read_decimal-digits n [] h = refl
read_decimal-digits n (c ∷ s) h = ground (arith, read_decimal-digits (n * 10 + (c - b'0')) s h.1)

unsigned_gb-digits : (s : Text) → IsDigits s → unsigned_gb s ≡ value s * 2 ^ 30
unfolding unsigned_gb
unsigned_gb-digits s h = rw (read_decimal-digits 0 s h) (omega arith)

-- Below 2^33 gigabytes, a number of bytes is an `int64`.
to_int64-small : (n : ℕ) → n < 2 ^ 33 → to_int64 (n * 2 ^ 30) ≡ pos (n * 2 ^ 30)
unfolding to_int64
to_int64-small n h = ground arith

parse_gb-digits : (s : Text) → IsDigits s → value s < 2 ^ 33 → parse_gb s ≡ pos (value s * 2 ^ 30)
unfolding parse_gb
parse_gb-digits [] h k = ap to_int64 (unsigned_gb-digits [] h) ∙ to_int64-small (value []) k
parse_gb-digits (c ∷ s) h k =
    let e = ap to_int64 (unsigned_gb-digits (c ∷ s) h) ∙ to_int64-small (value (c ∷ s)) k in
    ground arith

split_dash-digits :
    (lo hi : Text) → IsDigits lo → split_dash (lo ++ codes "-" ++ hi) ≡ some (lo, hi)
unfolding split_dash
split_dash-digits [] hi h = refl
split_dash-digits (c ∷ lo) hi h = ground (arith, split_dash-digits lo hi h.1)

IsDigits-append : (s t : Text) → IsDigits s → IsDigits t → IsDigits (s ++ t)
IsDigits-append [] t h k = k
IsDigits-append (c ∷ s) t h k = (h.0, IsDigits-append s t h.1 k)

IsDigits-reverse : (s : Text) → IsDigits s → IsDigits (reverse s)
IsDigits-reverse [] h = tt
IsDigits-reverse (c ∷ s) h =
    rw (reverse-cons c s) (IsDigits-append (reverse s) (c ∷ []) (IsDigits-reverse s h.1) (h.0, tt))

trim_left-digits : (s : Text) → IsDigits s → trim_left s ≡ s
unfolding trim_left
trim_left-digits [] h = refl
trim_left-digits (c ∷ s) h = ground arith

trim_space-digits : (s : Text) → IsDigits s → trim_space s ≡ s
unfolding trim_space
trim_space-digits s h =
    rw (trim_left-digits s h, trim_left-digits (reverse s) (IsDigits-reverse s h))
      (reverse-reverse s)

parse_size_range-digits :
    (lo hi : Text)
    → IsDigits lo
    → IsDigits hi
    → value lo < 2 ^ 33
    → value hi < 2 ^ 33
    → parse_size_range (lo ++ codes "-" ++ hi) ≡ (pos (value lo * 2 ^ 30), pos (value hi * 2 ^ 30))
unfolding parse_size_range
parse_size_range-digits lo hi h k low high =
    rw (split_dash-digits lo hi h, trim_space-digits lo h, trim_space-digits hi k)
      (cc (parse_gb-digits lo h low, parse_gb-digits hi k high))

implementation_of-size : implementation_of (codes "SizeSpecification") ≡ size
unfolding implementation_of text_eq
implementation_of-size = refl

size_in_iff :
    (s : ℤ) (lo hi : ℕ)
    → (size_in s (pos (lo * 2 ^ 30), pos (hi * 2 ^ 30)) ≡ true)
      ↔ ((s ≢ pos 0) × (pos (lo * 2 ^ 30) ≤ℤ s) × ((hi ≡ 0) ⊎ (s ≤ℤ pos (hi * 2 ^ 30))))
unfolding size_in
size_in_iff s lo hi = ground arith

split_dash-no_dash : (s : Text) → All (λ c. c ≢ b'-') s → split_dash s ≡ none
unfolding split_dash
split_dash-no_dash [] h = refl
split_dash-no_dash (c ∷ s) h = ground (arith, split_dash-no_dash s h.1)

parse_size_range-no_dash : (s : Text) → All (λ c. c ≢ b'-') s → parse_size_range s ≡ (pos 0, pos 0)
unfolding parse_size_range
parse_size_range-no_dash s h = rw (split_dash-no_dash s h)

size_in_open : (s : ℤ) → pos 0 <ℤ s → size_in s (pos 0, pos 0) ≡ true
unfolding size_in
size_in_open s h = ground arith

module _ (compile : Text → Option (Text → Bool)) (info : ParsedEpisodeInfo)
    (spec : Specification) where
  -- A range of whole gigabytes "lo-hi", each below 2^33, admits exactly the known sizes from lo to hi
  -- gigabytes of 2^30 bytes, both included, and a hi of 0 is no upper limit.
  pub match_spec-size_range :
      (lo hi : Text)
      → spec.implementation ≡ codes "SizeSpecification"
      → spec.value ≡ lo ++ codes "-" ++ hi
      → IsDigits lo
      → IsDigits hi
      → value lo < 2 ^ 33
      → value hi < 2 ^ 33
      → (match_spec compile info spec ≡ true) ↔ (
          (info.size ≢ pos 0)
          × (pos (value lo * 2 ^ 30) ≤ℤ info.size)
          × ((value hi ≡ 0) ⊎ (info.size ≤ℤ pos (value hi * 2 ^ 30))))
  unfolding match_spec
  match_spec-size_range lo hi e v h k low high =
      rw (e, v, implementation_of-size)
        (rw (parse_size_range-digits lo hi h k low high)
          (size_in_iff info.size (value lo) (value hi)))

  -- A value with no dash does not fail: it admits every release of positive size.
  match_spec-no_dash :
      spec.implementation ≡ codes "SizeSpecification"
      → All (λ c. c ≢ b'-') spec.value
      → pos 0 <ℤ info.size
      → match_spec compile info spec ≡ true
  unfolding match_spec
  match_spec-no_dash e h k =
      rw (e, implementation_of-size)
        (rw (parse_size_range-no_dash spec.value h) (size_in_open info.size k))
