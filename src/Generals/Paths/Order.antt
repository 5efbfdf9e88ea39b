-- ===== src/Generals/Paths/Order.antt =====
-- The lists of ids for a round, in the order of `std::set`.
use byzantine_agreement.Common.{
  ℕ, zero, suc, ◌-◌, ◌<◌, ◌≡◌, arith, true, List, [], ◌∷◌, ◌++◌, All, All-append, All-map, map,
  lt→ltb,
}
use byzantine_agreement.OrderedSet.{◌<?◌}
use byzantine_agreement.OrderedSet.Laws.{IsOrdered, Above}
use byzantine_agreement.OrderedSet.Vectors.{nat_order, list_order}
use byzantine_agreement.Generals.Paths.{
  without, numbers, beginning, arrangements, others, all_paths,
}

Above-without : (a x : ℕ) (s : List ℕ) → Above a s → Above a (without x s)
Above-without a x [] h = tt
Above-without a x (y ∷ s) h = ground (arith, Above-without a x s h.1)

pub without-IsOrdered : (x : ℕ) (s : List ℕ) → IsOrdered s → IsOrdered (without x s)
without-IsOrdered x [] h = tt
without-IsOrdered x (y ∷ s) h = ground (arith, without-IsOrdered x s h.1, Above-without y x s h.0)

Above-numbers : (a b k : ℕ) → a < b → Above a (numbers b k)
Above-numbers a b zero h = tt
Above-numbers a b (suc k) h = (lt→ltb a b h, Above-numbers a (suc b) k (omega (arith, h)))

pub numbers-IsOrdered : (a k : ℕ) → IsOrdered (numbers a k)
numbers-IsOrdered a zero = tt
numbers-IsOrdered a (suc k) = (Above-numbers a (suc a) k (omega arith), numbers-IsOrdered (suc a) k)

-- Lists that begin with something larger.
abbrev StartsAbove : ℕ → List ℕ → Type 0
StartsAbove x [] = ⊥
StartsAbove x (y ∷ ys) = (x <? y) ≡ true

map_cons-Above :
    (x : ℕ) (l : List ℕ) (ls : List (List ℕ)) → Above l ls → Above (x ∷ l) (map (λ k. x ∷ k) ls)
map_cons-Above x l [] h = tt
map_cons-Above x l (k ∷ ls) h = (ground (arith, h.0), map_cons-Above x l ls h.1)

map_cons-IsOrdered : (x : ℕ) (ls : List (List ℕ)) → IsOrdered ls → IsOrdered (map (λ k. x ∷ k) ls)
map_cons-IsOrdered x [] h = tt
map_cons-IsOrdered x (l ∷ ls) h = (map_cons-Above x l ls h.0, map_cons-IsOrdered x ls h.1)

map_cons-StartsAbove :
    (a x : ℕ) (ls : List (List ℕ)) → (a <? x) ≡ true → All (StartsAbove a) (map (λ k. x ∷ k) ls)
map_cons-StartsAbove a x [] h = tt
map_cons-StartsAbove a x (l ∷ ls) h = (h, map_cons-StartsAbove a x ls h)

beginning-StartsAbove :
    (f : List ℕ → List (List ℕ)) (a : ℕ) (xs s : List ℕ)
    → Above a xs
    → All (StartsAbove a) (beginning f xs s)
beginning-StartsAbove f a [] s h = tt
beginning-StartsAbove f a (x ∷ xs) s h =
    All-append (StartsAbove a) (map (λ k. x ∷ k) (f (without x s))) (beginning f xs s)
      (map_cons-StartsAbove a x (f (without x s)) h.0) (beginning-StartsAbove f a xs s h.1)

StartsAbove-less : (x : ℕ) (l k : List ℕ) → StartsAbove x k → ((x ∷ l) <? k) ≡ true
StartsAbove-less x l [] h = absurd h
StartsAbove-less x l (y ∷ k) h = ground (arith, h)

-- Lists that begin with a number, before lists that begin with larger ones.
block-IsOrdered :
    (x : ℕ) (ls ks : List (List ℕ))
    → IsOrdered ls
    → IsOrdered ks
    → All (StartsAbove x) ks
    → IsOrdered (map (λ k. x ∷ k) ls ++ ks)
block-IsOrdered x [] ks h k a = k
block-IsOrdered x (l ∷ ls) ks h k a = (
  All-append (λ j. ((x ∷ l) <? j) ≡ true) (map (λ k. x ∷ k) ls) ks (map_cons-Above x l ls h.0)
      (All-map (λ j b. StartsAbove-less x l j b) ks a),
  block-IsOrdered x ls ks h.1 k a,
)

beginning-IsOrdered :
    (f : List ℕ → List (List ℕ)) (xs s : List ℕ)
    → IsOrdered xs
    → ((x : ℕ) → IsOrdered (f (without x s)))
    → IsOrdered (beginning f xs s)
beginning-IsOrdered f [] s h k = tt
beginning-IsOrdered f (x ∷ xs) s h k =
    block-IsOrdered x (f (without x s)) (beginning f xs s) (k x) (beginning-IsOrdered f xs s h.1 k)
      (beginning-StartsAbove f x xs s h.0)

arrangements-IsOrdered : (r : ℕ) (s : List ℕ) → IsOrdered s → IsOrdered (arrangements r s)
arrangements-IsOrdered zero s h = (tt, tt)
arrangements-IsOrdered (suc r) s h =
    beginning-IsOrdered (arrangements r) s s h
      (λ x. arrangements-IsOrdered r (without x s) (without-IsOrdered x s h))

pub all_paths-IsOrdered : (n me round : ℕ) → IsOrdered (all_paths n me round)
all_paths-IsOrdered n me round = map_cons-IsOrdered 0 (arrangements round (others n me)) (
    arrangements-IsOrdered round (others n me)
      (without-IsOrdered me (numbers 1 (n - 1)) (numbers-IsOrdered 1 (n - 1))))
