-- ===== src/OrderedSet/Same.antt =====
-- Sets by their elements.
use byzantine_agreement.Common.{
  ◌≡◌, ◌⊎◌, refl, sym, inl, inr, arith, true, List, [], ◌∷◌, Bool-cases, subst,
}
use byzantine_agreement.OrderedSet.{StrictOrder, ◌<?◌, same, member}
use byzantine_agreement.OrderedSet.Laws.{IsOrdered, Above, same_self, same→eq}

module _ {ℓ} {A : Type ℓ} ⦃o : StrictOrder A⦄ where
  pub member_head : (x : A) (xs : List A) → member x (x ∷ xs) ≡ true
  unfolding member
  member_head x xs = rw (same_self x) refl

  pub member_tail : (v x : A) (xs : List A) → member v xs ≡ true → member v (x ∷ xs) ≡ true
  unfolding member
  member_tail v x xs h = ground (arith, h)

  pub member_cases :
      (v x : A) (xs : List A) → member v (x ∷ xs) ≡ true → (v ≡ x) ⊎ (member v xs ≡ true)
  unfolding member
  member_cases v x xs h = elim (Bool-cases (same v x)) [
    | inl e ↦ inl (same→eq v x e)
    | inr e ↦ inr (rw (e, member) at h)
  ]

  pub Above-member : (a b : A) (s : List A) → Above a s → member b s ≡ true → (a <? b) ≡ true
  unfolding member
  Above-member a b [] h m = cc
  Above-member a b (x ∷ xs) h m = elim (member_cases b x xs m) [
    | inl e ↦ rw e h.0
    | inr i ↦ Above-member a b xs h.1 i
  ]

  -- The least elements of two sets with the same elements are the same.
  same_head :
      (x y : A) (xs ys : List A)
      → Above x xs
      → Above y ys
      → member x (y ∷ ys) ≡ true
      → member y (x ∷ xs) ≡ true
      → x ≡ y
  same_head x y xs ys h k m n = elim (member_cases x y ys m) [
    | inl e ↦ e
    | inr i ↦ elim (member_cases y x xs n) [
      | inl e ↦ sym e
      | inr j ↦
          let loop = o.less-trans x y x (Above-member x y xs h j) (Above-member y x ys k i) in
          cc (o.less-irrefl x)
    ]
  ]

  -- The rest of a set has what the rest of another has, if their least elements are the same.
  pub rest_has :
      (x v : A) (xs ys : List A)
      → Above x xs
      → (member v (x ∷ xs) ≡ true → member v (x ∷ ys) ≡ true)
      → member v xs ≡ true
      → member v ys ≡ true
  rest_has x v xs ys h f m = elim (member_cases v x ys (f (member_tail v x xs m))) [
    | inl e ↦ cc (Above-member x v xs h m, o.less-irrefl x)
    | inr i ↦ i
  ]

  pub same_elements :
      (s t : List A)
      → IsOrdered s
      → IsOrdered t
      → ((v : A) → member v s ≡ true → member v t ≡ true)
      → ((v : A) → member v t ≡ true → member v s ≡ true)
      → s ≡ t
  unfolding member
  same_elements [] [] h k f g = refl
  same_elements [] (y ∷ ys) h k f g = cc (g y (member_head y ys))
  same_elements (x ∷ xs) [] h k f g = cc (f x (member_head x xs))
  same_elements (x ∷ xs) (y ∷ ys) h k f g =
      let e = same_head x y xs ys h.0 k.0 (f x (member_head x xs)) (g y (member_head y ys)) in
      let f' : (v : A) → member v (x ∷ xs) ≡ true → member v (x ∷ ys) ≡ true =
        λ v m. subst (λ z. member v (z ∷ ys) ≡ true) (sym e) (f v m) in
      let g' : (v : A) → member v (x ∷ ys) ≡ true → member v (x ∷ xs) ≡ true =
        λ v m. g v (subst (λ z. member v (z ∷ ys) ≡ true) e m) in
      let above : Above x ys = subst (λ z. Above z ys) (sym e) k.0 in
      let tails =
        same_elements xs ys h.1 k.1 (λ v m. rest_has x v xs ys h.0 (f' v) m)
          (λ v m. rest_has x v ys xs above (g' v) m) in
      rw (e, tails) refl
