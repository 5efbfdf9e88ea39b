-- ===== src/Generals/Paths/Members.antt =====
-- Which lists of ids there are for a round, and in which order.
use byzantine_agreement.Common.{
  ℕ, ℕ_discrete, ap, sym, zero, suc, ◌+◌, ◌-◌, ◌<◌, ◌≡◌, ◌≢◌, ◌↔◌, refl, arith, Bool, true, false,
  not, ◌&&◌, ◌||◌, List, [], ◌∷◌, ◌++◌, All, length, contains, some, map, ◌==◌, ltb,
}
use byzantine_agreement.OrderedSet.{member}
use byzantine_agreement.OrderedSet.Vectors.{nat_order, list_order}
use byzantine_agreement.Generals.Lieutenant.Valid.{distinct}
use byzantine_agreement.Generals.Paths.{
  without, numbers, beginning, arrangements, others, all_paths, IsPath,
}

pub contains-without :
    (x : ℕ) (s : List ℕ) (y : ℕ) → contains (without x s) y ≡ (contains s y && not (y == x))
contains-without x [] y = refl
contains-without x (z ∷ s) y = ground (arith, contains-without x s y)

pub contains-numbers : (a k y : ℕ) → contains (numbers a k) y ≡ (not (ltb y a) && ltb y (a + k))
contains-numbers a zero y = ground arith
contains-numbers a (suc k) y = ground (arith, contains-numbers (suc a) k y)

-- Different numbers, all of them from a list.
abbrev pub is_arrangement : ℕ → List ℕ → List ℕ → Bool
is_arrangement zero s [] = true
is_arrangement zero s (x ∷ xs) = false
is_arrangement (suc r) s [] = false
is_arrangement (suc r) s (x ∷ xs) = contains s x && is_arrangement r (without x s) xs

member-append :
    (l : List ℕ) (xs ys : List (List ℕ)) → member l (xs ++ ys) ≡ (member l xs || member l ys)
unfolding member
member-append l [] ys = refl
member-append l (x ∷ xs) ys = ground (arith, member-append l xs ys)

member-map_nil : (x : ℕ) (ls : List (List ℕ)) → member [] (map (λ l. x ∷ l) ls) ≡ false
unfolding member
member-map_nil x [] = refl
member-map_nil x (l ∷ ls) = ground (arith, member-map_nil x ls)

member-map_cons :
    (y x : ℕ) (ys : List ℕ) (ls : List (List ℕ))
    → member (y ∷ ys) (map (λ l. x ∷ l) ls) ≡ (y == x && member ys ls)
unfolding member
member-map_cons y x ys [] = ground arith
member-map_cons y x ys (l ∷ ls) = ground (arith, member-map_cons y x ys ls)

member-beginning_nil :
    (f : List ℕ → List (List ℕ)) (xs s : List ℕ) → member [] (beginning f xs s) ≡ false
unfolding member
member-beginning_nil f [] s = refl
member-beginning_nil f (x ∷ xs) s = ground (
  arith,
  member-append [] (map (λ l. x ∷ l) (f (without x s))) (beginning f xs s),
  member-map_nil x (f (without x s)),
  member-beginning_nil f xs s,
)

member-beginning_cons :
    (f : List ℕ → List (List ℕ)) (xs s : List ℕ) (y : ℕ) (ys : List ℕ)
    → member (y ∷ ys) (beginning f xs s) ≡ (contains xs y && member ys (f (without y s)))
unfolding member
member-beginning_cons f [] s y ys = refl
member-beginning_cons f (x ∷ xs) s y ys = elim (ℕ_discrete x y) [
  | yes e ↦ ground (
    arith,
    member-append (y ∷ ys) (map (λ l. x ∷ l) (f (without x s))) (beginning f xs s),
    member-map_cons y x ys (f (without x s)),
    member-beginning_cons f xs s y ys,
    ap (λ z. member ys (f (without z s))) e,
  )
  | no e ↦ ground (
    arith,
    member-append (y ∷ ys) (map (λ l. x ∷ l) (f (without x s))) (beginning f xs s),
    member-map_cons y x ys (f (without x s)),
    member-beginning_cons f xs s y ys,
  )
]

pub member-arrangements :
    (r : ℕ) (s l : List ℕ) → member l (arrangements r s) ≡ is_arrangement r s l
unfolding member
member-arrangements zero s [] = refl
member-arrangements zero s (x ∷ xs) = refl
member-arrangements (suc r) s [] = member-beginning_nil (arrangements r) s s
member-arrangements (suc r) s (x ∷ xs) =
    ground (
      arith,
      member-beginning_cons (arrangements r) s s x xs,
      member-arrangements r (without x s) xs,
    )

abbrev all_in : List ℕ → List ℕ → Bool
all_in s [] = true
all_in s (x ∷ xs) = contains s x && all_in s xs

all_in-without :
    (x : ℕ) (s xs : List ℕ) → all_in (without x s) xs ≡ (all_in s xs && not (contains xs x))
all_in-without x s [] = refl
all_in-without x s (y ∷ xs) = ground (arith, contains-without x s y, all_in-without x s xs)

is_arrangement_lem :
    (r : ℕ) (s xs : List ℕ)
    → is_arrangement r s xs ≡ (length xs == r && (distinct xs && all_in s xs))
is_arrangement_lem zero s [] = ground arith
is_arrangement_lem zero s (x ∷ xs) = ground arith
is_arrangement_lem (suc r) s [] = ground arith
is_arrangement_lem (suc r) s (x ∷ xs) =
    ground (arith, is_arrangement_lem r (without x s) xs, all_in-without x s xs)

contains-others :
    (n me y : ℕ) → contains (others n me) y ≡ (not (y == 0) && (ltb y n && not (y == me)))
contains-others n me y =
    ground (arith, contains-without me (numbers 1 (n - 1)) y, contains-numbers 1 (n - 1) y)

-- All of them are lieutenants other than process `me`.
all_in-others :
    (n me : ℕ) (ys : List ℕ)
    → (all_in (others n me) ys ≡ true)
      ↔ ((contains ys 0 ≡ false) × All (λ (i : ℕ). (i < n) × (i ≢ me)) ys)
all_in-others n me [] = (λ e. (refl, tt), λ h. refl)
all_in-others n me (y ∷ ys) = ground (arith, contains-others n me y, all_in-others n me ys)

both_true : (a b : Bool) → a && b ≡ true → (a ≡ true) × (b ≡ true)
both_true a b h = ground (arith, h)

-- A list for a round, as a test.
all_paths_test :
    (n me round y : ℕ) (ys : List ℕ)
    → member (y ∷ ys) (all_paths n me round)
      ≡ (y == 0 && (length ys == round && (distinct ys && all_in (others n me) ys)))
all_paths_test n me round y ys = ground (
  arith,
  member-map_cons y 0 ys (arrangements round (others n me)),
  member-arrangements round (others n me) ys,
  is_arrangement_lem round (others n me) ys,
)

-- The lists for a round are those that `ValidMessage` lets pass.
pub member-all_paths :
    (n me round : ℕ) (ids : List ℕ)
    → 0 < n
    → me ≢ 0
    → (member ids (all_paths n me round) ≡ true) ↔ IsPath n me round ids
member-all_paths n me round [] h z = (
  λ e. cc (member-map_nil 0 (arrangements round (others n me))),
  λ v. absurd (omega (arith, v.one_id_each)),
)
member-all_paths n me round (y ∷ ys) h z =
    let e = all_paths_test n me round y ys in
    let c = all_in-others n me ys in
    (
      λ q.
          let y0 : y ≡ 0 = ground (arith, q, e) in
          let l : length ys ≡ round = ground (arith, q, e) in
          let d : distinct ys ≡ true = ground (arith, q, e) in
          let (no0, a) = c.0 (ground (arith, q, e)) in
          record {
            one_id_each = omega (arith, l);
            commander_first = ap some y0;
            all_others = ((rw y0 h, rw y0 (λ w. z (sym w))), a);
            no_id_twice = rw y0 (rw no0 d);
          },
      λ v.
          let y0 : y ≡ 0 = cc v.commander_first in
          let (t0, d) = both_true (not (contains ys y)) (distinct ys) v.no_id_twice in
          let no0 : contains ys 0 ≡ false = rw (sym y0) (ground (arith, t0)) in
          let q : all_in (others n me) ys ≡ true = c.1 (no0, v.all_others.1) in
          let l : length ys ≡ round = omega (arith, v.one_id_each) in
          ground (arith, e, y0, d, q, l),
    )
