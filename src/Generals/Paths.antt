-- ===== src/Generals/Paths.antt =====
-- The lists of ids that a message of a round can have, by `ValidMessage` of src/general.cc: one by
-- one, in the order of `std::set`.
pub mod Counted
pub mod Members
pub mod Order
use byzantine_agreement.Common.{
  ℕ, zero, suc, ◌+◌, ◌-◌, ◌<◌, ◌≡◌, ◌≢◌, Bool, true, List, [], ◌∷◌, ◌++◌, All, length, contains,
  get_elem?, some, map, ◌==◌, if◌then◌else◌,
}
use byzantine_agreement.Generals.Lieutenant.Valid.{distinct}

-- The list without a number.
abbrev pub without : ℕ → List ℕ → List ℕ
without x [] = []
without x (y ∷ ys) = if y == x then without x ys else y ∷ without x ys

-- `count` numbers from `a` on.
abbrev pub numbers : ℕ → ℕ → List ℕ
numbers a zero = []
numbers a (suc count) = a ∷ numbers (suc a) count

-- The lists that begin with one of the heads and go on without it.
abbrev pub beginning : (List ℕ → List (List ℕ)) → List ℕ → List ℕ → List (List ℕ)
beginning rest [] s = []
beginning rest (x ∷ xs) s = map (λ l. x ∷ l) (rest (without x s)) ++ beginning rest xs s

-- The lists of `r` different numbers from a list.
abbrev pub arrangements : ℕ → List ℕ → List (List ℕ)
arrangements zero s = [] ∷ []
arrangements (suc r) s = beginning (arrangements r) s s

-- The lieutenants of `n` processes other than process `me`.
abbrev pub others : ℕ → ℕ → List ℕ
others n me = without me (numbers 1 (n - 1))

-- All lists of ids for a round.
abbrev pub all_paths : ℕ → ℕ → ℕ → List (List ℕ)
all_paths n me round = map (λ l. 0 ∷ l) (arrangements round (others n me))

-- What `ValidMessage` asks of the ids of a message of a round.
pub record IsPath (n me round : ℕ) (ids : List ℕ) : Type 0 where
  pub one_id_each : length ids ≡ round + 1
  pub commander_first : get_elem? ids 0 ≡ some 0
  pub all_others : All (λ (i : ℕ). (i < n) × (i ≢ me)) ids
  pub no_id_twice : distinct ids ≡ true
