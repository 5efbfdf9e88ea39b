-- ===== src/OrderedSet/Vectors.antt =====
-- The orders of the element types that the standard library compares: numbers, and vectors of
-- them in lexicographic order.
use byzantine_agreement.Common.{
  ℕ, ◌≡◌, refl, arith, Bool, true, false, ◌&&◌, ◌||◌, List, [], ◌∷◌, ltb, ◌==◌,
}
use byzantine_agreement.OrderedSet.{StrictOrder}

pub ltb_irrefl : (a : ℕ) → ltb a a ≡ false
ltb_irrefl a = ground arith

pub ltb_trans : (a b c : ℕ) → ltb a b ≡ true → ltb b c ≡ true → ltb a c ≡ true
ltb_trans a b c p q = ground arith

pub ltb-total : (a b : ℕ) → ltb a b ≡ false → ltb b a ≡ false → a ≡ b
ltb-total a b p q = ground arith

instance abbrev pub nat_order : StrictOrder ℕ
nat_order = record {
  less = ltb;
  less-irrefl = ltb_irrefl;
  less-trans = ltb_trans;
  less-total = ltb-total;
}

-- `operator<` of two vectors.
abbrev pub list_ltb : List ℕ → List ℕ → Bool
list_ltb [] [] = false
list_ltb [] (y ∷ ys) = true
list_ltb (x ∷ xs) [] = false
list_ltb (x ∷ xs) (y ∷ ys) = ltb x y || (x == y && list_ltb xs ys)

pub list_ltb_irrefl : (a : List ℕ) → list_ltb a a ≡ false
list_ltb_irrefl [] = refl
list_ltb_irrefl (x ∷ xs) = ground (arith, list_ltb_irrefl xs)

pub list_ltb_trans :
    (a b c : List ℕ) → list_ltb a b ≡ true → list_ltb b c ≡ true → list_ltb a c ≡ true
list_ltb_trans a [] [] p q = cc
list_ltb_trans [] [] (z ∷ zs) p q = cc
list_ltb_trans (x ∷ xs) [] (z ∷ zs) p q = cc
list_ltb_trans [] (y ∷ ys) [] p q = cc
list_ltb_trans [] (y ∷ ys) (z ∷ zs) p q = refl
list_ltb_trans (x ∷ xs) (y ∷ ys) [] p q = cc
list_ltb_trans (x ∷ xs) (y ∷ ys) (z ∷ zs) p q = ground (arith, list_ltb_trans xs ys zs)

pub list_ltb-total : (a b : List ℕ) → list_ltb a b ≡ false → list_ltb b a ≡ false → a ≡ b
list_ltb-total [] [] p q = refl
list_ltb-total [] (y ∷ ys) p q = cc
list_ltb-total (x ∷ xs) [] p q = cc
list_ltb-total (x ∷ xs) (y ∷ ys) p q = ground (arith, list_ltb-total xs ys)

instance abbrev pub list_order : StrictOrder (List ℕ)
list_order = record {
  less = list_ltb;
  less-irrefl = list_ltb_irrefl;
  less-trans = list_ltb_trans;
  less-total = list_ltb-total;
}
