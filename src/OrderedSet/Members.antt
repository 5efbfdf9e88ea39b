-- ===== src/OrderedSet/Members.antt =====
-- The elements of a set as a list: what `insert` adds and keeps.
use byzantine_agreement.Common.{◌≡◌, ◌⊎◌, refl, inl, inr, true, List, [], ◌∷◌, arith, Bool-cases}
use mathlib.Core.List.{Memᴰ}
use byzantine_agreement.OrderedSet.{StrictOrder, ◌<?◌, insert, member, same}
use byzantine_agreement.OrderedSet.Laws.{member-insert, same→eq}

module _ {ℓ} {A : Type ℓ} ⦃o : StrictOrder A⦄ where
  pub Memᴰ-insert : (a : A) (s : List A) {x : A} → Memᴰ x (insert a s) → (x ≡ a) ⊎ Memᴰ x s
  unfolding insert
  Memᴰ-insert a [] (Memᴰ.head e) = inl e
  Memᴰ-insert a [] (Memᴰ.tail m) = elim m [ ]
  Memᴰ-insert a (y ∷ ys) {x} m = elim (Bool-cases (a <? y)) [
    | inl h ↦ first (rw h at m)
    | inr h ↦ elim (Bool-cases (y <? a)) [
      | inl k ↦ later (rw (h, k) at m) (λ q. Memᴰ-insert a ys {x = x} q)
      | inr k ↦ inr (rw (h, k) at m)
    ]
  ]
    where
      first : Memᴰ x (a ∷ y ∷ ys) → (x ≡ a) ⊎ Memᴰ x (y ∷ ys)
      first (Memᴰ.head e) = inl e
      first (Memᴰ.tail q) = inr q

      later :
          Memᴰ x (y ∷ insert a ys)
          → (Memᴰ x (insert a ys) → (x ≡ a) ⊎ Memᴰ x ys)
          → (x ≡ a) ⊎ Memᴰ x (y ∷ ys)
      later (Memᴰ.head e) ih = inr (Memᴰ.head e)
      later (Memᴰ.tail q) ih = elim (ih q) [ inl e ↦ inl e | inr r ↦ inr (Memᴰ.tail r) ]

  pub Memᴰ-insert_old : (a : A) (s : List A) {x : A} → Memᴰ x s → Memᴰ x (insert a s)
  unfolding insert
  Memᴰ-insert_old a [] m = elim m [ ]
  Memᴰ-insert_old a (y ∷ ys) {x} m = elim (Bool-cases (a <? y)) [
    | inl h ↦ rw h (Memᴰ.tail m)
    | inr h ↦ elim (Bool-cases (y <? a)) [
      | inl k ↦ rw (h, k) (kept m (λ q. Memᴰ-insert_old a ys {x = x} q))
      | inr k ↦ rw (h, k) m
    ]
  ]
    where
      kept : Memᴰ x (y ∷ ys) → (Memᴰ x ys → Memᴰ x (insert a ys)) → Memᴰ x (y ∷ insert a ys)
      kept (Memᴰ.head e) ih = Memᴰ.head e
      kept (Memᴰ.tail q) ih = Memᴰ.tail (ih q)

  pub Memᴰ-insert_self : (a : A) (s : List A) → Memᴰ a (insert a s)
  unfolding insert
  Memᴰ-insert_self a [] = Memᴰ.head refl
  Memᴰ-insert_self a (y ∷ ys) = elim (Bool-cases (a <? y)) [
    | inl h ↦ rw h (Memᴰ.head refl)
    | inr h ↦ elim (Bool-cases (y <? a)) [
      | inl k ↦ rw (h, k) (Memᴰ.tail (Memᴰ-insert_self a ys))
      | inr k ↦ rw (h, k) (Memᴰ.head (o.less-total a y h k))
    ]
  ]

  pub member-insert_cases :
      (b a : A) (s : List A) → member b (insert a s) ≡ true → (b ≡ a) ⊎ (member b s ≡ true)
  member-insert_cases b a s h = elim (Bool-cases (same b a)) [
    | inl e ↦ inl (same→eq b a e)
    | inr e ↦ inr (rw (member-insert b a s, e) at h)
  ]

  pub member-insert_old : (b a : A) (s : List A) → member b s ≡ true → member b (insert a s) ≡ true
  member-insert_old b a s h = rw (member-insert b a s, h) (ground arith)
