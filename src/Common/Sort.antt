-- ===== src/Common/Sort.antt =====
-- The stable sort of Go's `sort.SliceStable`: the one arrangement that is sorted and keeps the
-- order of elements which compare equal. Written as an insertion sort.
use mathlib.Core.List.Perm
use mathlib.Core.List.{Perm}
use mathlib.Core.Path.{◌≡◌, refl, subst}
use mathlib.Core.Logic.{inl, inr}
use mathlib.Core.Bool.{Bool, true, false}
use mathlib.Core.List.{List, [], ◌∷◌}
use native.Mathlib.Omega.{arith}
use sonarr.Common.Tests.{if◌then◌else◌, Bool-cases}
use sonarr.Common.Lists.{All, In, select}

-- What `less` has to satisfy: a strict order whose incomparability is transitive.
pub record IsStrictWeak {ℓ} {A : Type ℓ} (less : A → A → Bool) : Type ℓ where
  pub asym : (x y : A) → less x y ≡ true → less y x ≡ false
  pub trans : (x y z : A) → less x y ≡ false → less y z ≡ false → less x z ≡ false

module _ {ℓ} {A : Type ℓ} (less : A → A → Bool) where
  pub insert : A → List A → List A
  insert x [] = x ∷ []
  insert x (y ∷ ys) = if less y x then y ∷ insert x ys else x ∷ y ∷ ys

  unfoldable pub slice_stable : List A → List A
  unfolding insert
  slice_stable [] = []
  slice_stable (x ∷ xs) = insert x (slice_stable xs)

  -- No later element is less than an earlier one.
  abbrev pub IsSorted : List A → Type 0
  IsSorted [] = Unit
  IsSorted (x ∷ xs) = All (λ y. less y x ≡ false) xs × IsSorted xs

  insert-perm : (x : A) (ys : List A) → Perm (insert x ys) (x ∷ ys)
  unfolding insert
  insert-perm x [] = Perm.refl _
  insert-perm x (y ∷ ys) = elim (Bool-cases (less y x)) [
    | inl e ↦ rw e (Perm.trans (Perm.cons y (insert-perm x ys)) (Perm.swap x y ys))
    | inr e ↦ rw e (Perm.refl _)
  ]

  pub slice_stable-perm : (xs : List A) → Perm (slice_stable xs) xs
  unfolding slice_stable
  slice_stable-perm [] = Perm.refl _
  slice_stable-perm (x ∷ xs) =
      Perm.trans (insert-perm x (slice_stable xs)) (Perm.cons x (slice_stable-perm xs))

  -- A class of elements none of which is less than another keeps its order.
  module _ (p : A → Bool) (flat : (x y : A) → p x ≡ true → p y ≡ true → less y x ≡ false) where
    select-insert : (x : A) (ys : List A) → select p (insert x ys) ≡ select p (x ∷ ys)
    unfolding insert
    select-insert x [] = refl
    select-insert x (y ∷ ys) = ground (arith, select-insert x ys, flat x y)

    pub select-slice_stable : (xs : List A) → select p (slice_stable xs) ≡ select p xs
    unfolding slice_stable
    select-slice_stable [] = refl
    select-slice_stable (x ∷ xs) =
        ground (arith, select-insert x (slice_stable xs), select-slice_stable xs)

  module _ (w : IsStrictWeak less) where
    All-trans :
        (x y : A) (ys : List A)
        → less y x ≡ false
        → All (λ z. less z y ≡ false) ys
        → All (λ z. less z x ≡ false) ys
    All-trans x y [] e h = tt
    All-trans x y (z ∷ ys) e h = (w.trans z y x h.0 e, All-trans x y ys e h.1)

    All-insert :
        (x y : A) (ys : List A)
        → less x y ≡ false
        → All (λ z. less z y ≡ false) ys
        → All (λ z. less z y ≡ false) (insert x ys)
    unfolding insert
    All-insert x y [] e h = (e, tt)
    All-insert x y (z ∷ ys) e h = ground (arith, All-insert x y ys e)

    insert-IsSorted : (x : A) (ys : List A) → IsSorted ys → IsSorted (insert x ys)
    unfolding insert
    insert-IsSorted x [] h = (tt, tt)
    insert-IsSorted x (y ∷ ys) h =
        ground (arith, insert-IsSorted x ys, All-insert x y ys, All-trans x y ys, w.asym y x)

    pub slice_stable-IsSorted : (xs : List A) → IsSorted (slice_stable xs)
    unfolding slice_stable
    slice_stable-IsSorted [] = tt
    slice_stable-IsSorted (x ∷ xs) = insert-IsSorted x (slice_stable xs) (slice_stable-IsSorted xs)

module _ {A : Type 0} (less : A → A → Bool) where
  In-insert_self : (x : A) (ys : List A) → In x (insert less x ys)
  unfolding insert
  In-insert_self x [] = inl refl
  In-insert_self x (y ∷ ys) = elim (Bool-cases (less y x)) [
    | inl e ↦ rw e (inr (In-insert_self x ys))
    | inr e ↦ rw e (inl refl)
  ]

  In-insert : (a x : A) (ys : List A) → In a ys → In a (insert less x ys)
  unfolding insert
  In-insert a x [] m = absurd m
  In-insert a x (y ∷ ys) (inl h) = elim (Bool-cases (less y x)) [
    | inl e ↦ rw e (inl h)
    | inr e ↦ rw e (inr (inl h))
  ]
  In-insert a x (y ∷ ys) (inr m) = elim (Bool-cases (less y x)) [
    | inl e ↦ rw e (inr (In-insert a x ys m))
    | inr e ↦ rw e (inr (inr m))
  ]

  pub In-slice_stable : (a : A) (xs : List A) → In a xs → In a (slice_stable less xs)
  unfolding slice_stable
  In-slice_stable a [] m = m
  In-slice_stable a (x ∷ xs) (inl e) =
      subst (λ y. In a (insert less y (slice_stable less xs))) e
        (In-insert_self a (slice_stable less xs))
  In-slice_stable a (x ∷ xs) (inr m) = In-insert a x (slice_stable less xs) (In-slice_stable a xs m)

  insert-In : (a x : A) (ys : List A) → In a (insert less x ys) → In a (x ∷ ys)
  unfolding insert
  insert-In a x [] m = m
  insert-In a x (y ∷ ys) m = ground (arith, insert-In a x ys)

  pub slice_stable-In : (a : A) (xs : List A) → In a (slice_stable less xs) → In a xs
  unfolding slice_stable
  slice_stable-In a [] m = m
  slice_stable-In a (x ∷ xs) m =
      ground (arith, insert-In a x (slice_stable less xs), slice_stable-In a xs)
