-- ===== src/OrderedSet/Subsets.antt =====
-- A set and a larger one.
use byzantine_agreement.Common.{
  ◌<◌, ◌≡◌, ◌⊎◌, refl, sym, ap, inl, inr, arith, true, List, [], ◌∷◌, length, subst,
}
use byzantine_agreement.OrderedSet.{StrictOrder, ◌<?◌, member}
use byzantine_agreement.OrderedSet.Laws.{IsOrdered}
use byzantine_agreement.OrderedSet.Same.{member_head, member_cases, Above-member, rest_has}

module _ {ℓ} {A : Type ℓ} ⦃o : StrictOrder A⦄ where
  abbrev pub IsSubset : List A → List A → Type ℓ
  IsSubset s t = (v : A) → member v s ≡ true → member v t ≡ true

  -- If the least element of a set is not that of a larger one, the rest of the larger one does.
  in_rest :
      (x y : A) (xs ys : List A)
      → IsOrdered (x ∷ xs)
      → IsOrdered (y ∷ ys)
      → IsSubset (x ∷ xs) (y ∷ ys)
      → member x ys ≡ true
      → IsSubset (x ∷ xs) ys
  in_rest x y xs ys h k f i v m = elim (member_cases v y ys (f v m)) [
    | inr j ↦ j
    | inl e ↦
        let below = Above-member y x ys k.0 i in
        elim (member_cases v x xs m) [
          | inl e' ↦ cc
          | inr j ↦
              let above = Above-member x v xs h.0 j in
              let loop = o.less-trans x y x (subst (λ z. (x <? z) ≡ true) e above) below in
              cc (o.less-irrefl x)
        ]
  ]

  -- A subset has fewer elements, or is the same set.
  pub subset_cases :
      (s t : List A) → IsOrdered s → IsOrdered t → IsSubset s t → (length s < length t) ⊎ (s ≡ t)
  unfolding member
  subset_cases [] [] h k f = inr refl
  subset_cases [] (y ∷ ys) h k f = inl (omega arith)
  subset_cases (x ∷ xs) [] h k f = cc (f x (member_head x xs))
  subset_cases (x ∷ xs) (y ∷ ys) h k f = elim (member_cases x y ys (f x (member_head x xs))) [
    | inl e ↦
        let f' : IsSubset (x ∷ xs) (x ∷ ys) =
          λ v m. subst (λ z. member v (z ∷ ys) ≡ true) (sym e) (f v m) in
        elim (subset_cases xs ys h.1 k.1 (λ v m. rest_has x v xs ys h.0 (f' v) m)) [
          | inl lt ↦ inl (omega (arith, lt))
          | inr q ↦ inr (rw (e, q) refl)
        ]
    | inr i ↦ elim (subset_cases (x ∷ xs) ys h k.1 (in_rest x y xs ys h k f i)) [
      | inl lt ↦ inl (omega (arith, lt))
      | inr q ↦ inl (omega (arith, ap length q))
    ]
  ]

  -- The subset is the whole set exactly when it has as many elements.
  pub subset_whole :
      (s t : List A) → IsOrdered s → IsOrdered t → IsSubset s t → length s ≡ length t → s ≡ t
  subset_whole s t h k f e = elim (subset_cases s t h k f) [
    | inl lt ↦ absurd (omega (arith, lt, e))
    | inr q ↦ q
  ]
