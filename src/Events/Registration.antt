-- ===== src/Events/Registration.antt =====
-- In which order the handlers of an event type stand.
use mathlib.Core.List.Perm
use mathlib.Core.List.{Perm, append-nil, append_assoc}
use sonarr.Common.{
  Text, text_eq, ltb_ℤ, eqb_ℤ, ℤ, Bool, true, false, List, [], ◌∷◌, ◌++◌, ◌≡◌, refl, sym, ◌∙◌,
  arith, if◌then◌else◌, select, Bool-cases, ap, subst, inl, inr,
}
use sonarr.Common.Sort.{
  IsStrictWeak, IsSorted, slice_stable, slice_stable-perm, slice_stable-IsSorted,
  select-slice_stable,
}
use sonarr.Events.{Handler, register}

module _ {State Event Error : Type 0} where
  abbrev earlier : Handler State Event Error → Handler State Event Error → Bool
  earlier a b = ltb_ℤ a.order b.order

  earlier-IsStrictWeak : IsStrictWeak earlier
  earlier-IsStrictWeak = record { asym = λ a b h. ground arith; trans = λ a b c h k. ground arith }

  abbrev pub same_order : ℤ → Handler State Event Error → Bool
  same_order k h = eqb_ℤ h.order k

  same_order_flat :
      (k : ℤ) (a b : Handler State Event Error)
      → same_order k a ≡ true
      → same_order k b ≡ true
      → earlier b a ≡ false
  same_order_flat k a b h j = ground arith

  -- The registrations one after the other, on a bus with the given handlers.
  unfoldable pub register_all :
      List (Text × Handler State Event Error)
      → (Text → List (Handler State Event Error))
      → Text
      → List (Handler State Event Error)
  unfolding register
  register_all [] handlers = handlers
  register_all ((type, h) ∷ rest) handlers = register_all rest (register type h handlers)

  -- The handlers registered for a type, in the order of their registrations.
  unfoldable pub registered :
      Text → List (Text × Handler State Event Error) → List (Handler State Event Error)
  registered t [] = []
  registered t ((type, h) ∷ rest) =
      let others = registered t rest in if text_eq t type then h ∷ others else others

  -- `hs` arranges `source` by order, and handlers of one order as they come.
  abbrev pub IsArrangement :
      List (Handler State Event Error) → List (Handler State Event Error) → Type 0
  IsArrangement hs source =
      Perm hs source
      × IsSorted earlier hs
      × ((k : ℤ) → select (same_order k) hs ≡ select (same_order k) source)

  select-append :
      (k : ℤ) (xs ys : List (Handler State Event Error))
      → select (same_order k) (xs ++ ys) ≡ select (same_order k) xs ++ select (same_order k) ys
  select-append k [] ys = refl
  select-append k (x ∷ xs) ys = elim (Bool-cases (same_order k x)) [
    | inl e ↦ rw e (ap (λ z. x ∷ z) (select-append k xs ys))
    | inr e ↦ rw e (select-append k xs ys)
  ]

  slice_stable-IsArrangement :
      (hs source : List (Handler State Event Error)) (h : Handler State Event Error)
      → IsArrangement hs source
      → IsArrangement (slice_stable earlier (hs ++ h ∷ [])) (source ++ h ∷ [])
  slice_stable-IsArrangement hs source h (p, s, k) = (
    Perm.trans (slice_stable-perm earlier (hs ++ h ∷ [])) (Perm.append_right (h ∷ []) p),
    slice_stable-IsSorted earlier earlier-IsStrictWeak (hs ++ h ∷ []),
    (λ o.
        select-slice_stable earlier (same_order o) (same_order_flat o) (hs ++ h ∷ [])
        ∙ select-append o hs (h ∷ [])
        ∙ ap (λ z. z ++ select (same_order o) (h ∷ [])) (k o)
        ∙ sym (select-append o source (h ∷ []))),
  )

  register-IsArrangement :
      (t type : Text) (h : Handler State Event Error)
      (handlers : Text → List (Handler State Event Error))
      (source : List (Handler State Event Error))
      → IsArrangement (handlers t) source
      → IsArrangement
          (register type h handlers t)
          (source ++ (if text_eq t type then h ∷ [] else []))
  unfolding register
  register-IsArrangement t type h handlers source a = elim (Bool-cases (text_eq t type)) [
    | inl e ↦ rw e (slice_stable-IsArrangement (handlers t) source h a)
    | inr e ↦ rw e (subst (IsArrangement (handlers t)) (sym (append-nil source)) a)
  ]

  registered-cons :
      (t type : Text) (h : Handler State Event Error)
      (rest : List (Text × Handler State Event Error))
      → registered t ((type, h) ∷ rest)
        ≡ (if text_eq t type then h ∷ [] else []) ++ registered t rest
  unfolding registered
  registered-cons t type h rest = elim (Bool-cases (text_eq t type)) [
    | inl e ↦ rw e refl
    | inr e ↦ rw e refl
  ]

  register_all-IsArrangement :
      (t : Text) (rs : List (Text × Handler State Event Error))
      (handlers : Text → List (Handler State Event Error))
      (source : List (Handler State Event Error))
      → IsArrangement (handlers t) source
      → IsArrangement (register_all rs handlers t) (source ++ registered t rs)
  unfolding register_all registered
  register_all-IsArrangement t [] handlers source a =
      subst (IsArrangement (handlers t)) (sym (append-nil source)) a
  register_all-IsArrangement t ((type, h) ∷ rest) handlers source a =
      subst (IsArrangement (register_all rest (register type h handlers) t))
        (append_assoc source (if text_eq t type then h ∷ [] else []) (registered t rest)
          ∙ ap (λ z. source ++ z) (sym (registered-cons t type h rest)))
        (register_all-IsArrangement t rest (register type h handlers) _
          (register-IsArrangement t type h handlers source a))

  -- The handlers of a type are those registered for it, sorted by order, with handlers of one order
  -- as they were registered.
  pub registered_correct :
      (t : Text) (rs : List (Text × Handler State Event Error))
      → IsArrangement (register_all rs (λ _. []) t) (registered t rs)
  registered_correct t rs =
      register_all-IsArrangement t rs (λ _. []) [] (Perm.refl [], tt, λ k. refl)
