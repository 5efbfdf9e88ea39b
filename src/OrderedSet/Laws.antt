-- ===== src/OrderedSet/Laws.antt =====
-- The laws of `std::set` as a list: insertion, order and size.
use byzantine_agreement.Common.{
  ◌+◌, ◌≡◌, refl, arith, true, false, ◌||◌, List, [], ◌∷◌, length, All,
}
use byzantine_agreement.OrderedSet.{StrictOrder, ◌<?◌, same, insert, member}

module _ {ℓ} {A : Type ℓ} ⦃o : StrictOrder A⦄ where
  abbrev pub Above : A → List A → Type 0
  Above a = All (λ y. (a <? y) ≡ true)

  -- Strictly increasing.
  abbrev pub IsOrdered : List A → Type 0
  IsOrdered [] = Unit
  IsOrdered (x ∷ xs) = Above x xs × IsOrdered xs

  pub same_self : (a : A) → same a a ≡ true
  same_self a = ground (arith, o.less-irrefl a)

  pub same→eq : (a b : A) → same a b ≡ true → a ≡ b
  same→eq a b h = ground (arith, o.less-total a b)

  pub member-insert : (b a : A) (s : List A) → member b (insert a s) ≡ (same b a || member b s)
  unfolding insert member
  member-insert b a [] = refl
  member-insert b a (x ∷ xs) = ground (arith, member-insert b a xs, o.less-total a x)

  pub member-insert_self : (a : A) (s : List A) → member a (insert a s) ≡ true
  member-insert_self a s = rw (member-insert a a s, same_self a)

  pub All-insert {κ} : (P : A → Type κ) (a : A) (s : List A) → P a → All P s → All P (insert a s)
  unfolding insert
  All-insert P a [] h hs = (h, tt)
  All-insert P a (x ∷ xs) h hs = ground (arith, All-insert P a xs h hs.1)

  Above-mono : (a b : A) (s : List A) → (a <? b) ≡ true → Above b s → Above a s
  Above-mono a b [] h hs = tt
  Above-mono a b (x ∷ xs) h hs = (o.less-trans a b x h hs.0, Above-mono a b xs h hs.1)

  pub insert-IsOrdered : (a : A) (s : List A) → IsOrdered s → IsOrdered (insert a s)
  unfolding insert
  insert-IsOrdered a [] h = (tt, tt)
  insert-IsOrdered a (x ∷ xs) h =
      ground (
        arith,
        insert-IsOrdered a xs h.1,
        Above-mono a x xs,
        All-insert (λ y. (x <? y) ≡ true) a xs,
      )

  -- A new element makes the set larger by one, an old one leaves it as it is.
  not-member-Above : (a : A) (s : List A) → Above a s → member a s ≡ false
  unfolding member
  not-member-Above a [] h = refl
  not-member-Above a (x ∷ xs) h = ground (arith, not-member-Above a xs h.1)

  pub length-insert_new :
      (a : A) (s : List A) → member a s ≡ false → length (insert a s) ≡ length s + 1
  unfolding insert member
  length-insert_new a [] h = omega arith
  length-insert_new a (x ∷ xs) h = ground (arith, length-insert_new a xs)

  pub insert_old : (a : A) (s : List A) → IsOrdered s → member a s ≡ true → insert a s ≡ s
  unfolding insert member
  insert_old a [] h m = cc
  insert_old a (x ∷ xs) h m =
      ground (arith, insert_old a xs h.1, not-member-Above a xs, Above-mono a x xs, o.less-irrefl a)
