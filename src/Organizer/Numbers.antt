-- ===== src/Organizer/Numbers.antt =====
-- A number in a file name: its digits spell it, so the fuel of their loop is enough.
use sonarr.Common.{
  ℕ, zero, suc, ◌+◌, ◌-◌, ◌*◌, ◌/◌, ◌%◌, ◌≤◌, ltb, Text, [], ◌∷◌, ◌++◌, ◌≡◌, refl, arith, All,
  Bool-cases, inl, inr,
}
use sonarr.Organizer.{digits, two_digits}

abbrev IsDigit : ℕ → Type 0
IsDigit c = (48 ≤ c) × (c ≤ 57)

-- The number that digits spell behind those read.
value : ℕ → Text → ℕ
value n [] = n
value n (c ∷ s) = value (n * 10 + (c - 48)) s

value-append : (n : ℕ) (s : Text) (c : ℕ) → value n (s ++ c ∷ []) ≡ value n s * 10 + (c - 48)
unfolding value
value-append n [] c = refl
value-append n (d ∷ s) c = value-append (n * 10 + (d - 48)) s c

All-append_one : (s : Text) (c : ℕ) → All IsDigit s → IsDigit c → All IsDigit (s ++ c ∷ [])
All-append_one [] c h d = (d, tt)
All-append_one (b ∷ s) c h d = (h.0, All-append_one s c h.1 d)

digits_lem : (fuel n : ℕ) → n ≤ fuel → (value 0 (digits fuel n) ≡ n) × All IsDigit (digits fuel n)
unfolding digits value
digits_lem zero n h = ground arith
digits_lem (suc fuel) n h = ground (
  arith,
  digits_lem fuel (n / 10),
  value-append 0 (digits fuel (n / 10)) (48 + n % 10),
  All-append_one (digits fuel (n / 10)) (48 + n % 10),
)

two_digits_value : (n : ℕ) → (value 0 (two_digits n) ≡ n) × All IsDigit (two_digits n)
unfolding two_digits value
two_digits_value n = elim (Bool-cases (ltb n 10)) [
  | inl e ↦ rw e (ground arith)
  | inr e ↦ rw e (digits_lem n n (omega arith))
]
