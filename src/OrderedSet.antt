-- ===== src/OrderedSet.antt =====
-- `std::set`, as the program uses it: the elements in increasing order of the element type's `<`,
-- each once. The order is an interface that the element types fill.
pub mod Laws
pub mod Members
pub mod Same
pub mod Subsets
pub mod Vectors
use byzantine_agreement.Common.{
  ℕ, ◌≡◌, Bool, true, false, not, ◌&&◌, ◌||◌, List, [], ◌∷◌, if◌then◌else◌, length,
}

-- A strict total order, as a set needs of its elements.
pub record StrictOrder {ℓ} (A : Type ℓ) : Type ℓ where
  pub less : A → A → Bool
  pub less-irrefl : (a : A) → less a a ≡ false
  pub less-trans : (a b c : A) → less a b ≡ true → less b c ≡ true → less a c ≡ true
  pub less-total : (a b : A) → less a b ≡ false → less b a ≡ false → a ≡ b

infix 50 ◌<?◌
abbrev pub ◌<?◌ {ℓ} : {A : Type ℓ} ⦃o : StrictOrder A⦄ → A → A → Bool
◌<?◌ ⦃o⦄ = o.less

module _ {ℓ} {A : Type ℓ} ⦃o : StrictOrder A⦄ where
  -- Equivalence as `std::set` tests it: neither is less.
  abbrev pub same : A → A → Bool
  same a b = not (a <? b) && not (b <? a)

  unfoldable pub insert : A → List A → List A
  insert a [] = a ∷ []
  insert a (x ∷ xs) = if a <? x then a ∷ x ∷ xs else if x <? a then x ∷ insert a xs else x ∷ xs

  -- `count(a) != 0`
  unfoldable pub member : A → List A → Bool
  member a [] = false
  member a (x ∷ xs) = same a x || member a xs

  -- `size()`
  abbrev pub size : List A → ℕ
  size = length
