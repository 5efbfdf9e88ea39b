-- ===== src/Generals/Network/Paths.antt =====
-- Paths of distinct lieutenants that are too long for the malicious ones alone.
use byzantine_agreement.Common.{
  ℕ, ℕ_discrete, zero, suc, ◌+◌, ◌<◌, ◌≤◌, ◌≡◌, ◌≢◌, ◌⊎◌, refl, inl, inr, arith, Bool, true, false,
  not, ◌&&◌, ◌==◌, List, [], ◌∷◌, if◌then◌else◌, Bool-cases, All, length, contains, get_elem?, some,
}
use byzantine_agreement.Generals.Lieutenant.Valid.{distinct}

-- How many numbers below a bound pass a test.
abbrev pub count : (ℕ → Bool) → ℕ → ℕ
count test zero = 0
count test (suc k) = if test k then suc (count test k) else count test k

-- The lieutenants, which are the processes but for process 0, that are not loyal.
abbrev pub is_traitor : (ℕ → Bool) → ℕ → Bool
is_traitor loyal b = not (b == 0) && not (loyal b)

abbrev without : ℕ → (ℕ → Bool) → ℕ → Bool
without x test b = test b && not (b == x)

count-without_large : (test : ℕ → Bool) (x k : ℕ) → k ≤ x → count (without x test) k ≡ count test k
count-without_large test x zero h = refl
count-without_large test x (suc k) h = ground (arith, count-without_large test x k)

count-without :
    (test : ℕ → Bool) (x k : ℕ)
    → x < k
    → test x ≡ true
    → suc (count (without x test) k) ≡ count test k
count-without test x zero h e = absurd (omega (arith, h))
count-without test x (suc k) h e = elim (ℕ_discrete k x) [
  | yes q ↦ ground (arith, count-without_large test x k)
  | no q ↦ ground (arith, count-without test x k)
]

abbrev AllPass : (ℕ → Bool) → ℕ → List ℕ → Type 0
AllPass test n = All (λ (b : ℕ). (b < n) × (test b ≡ true))

AllPass-without :
    (test : ℕ → Bool) (x n : ℕ) (xs : List ℕ)
    → contains xs x ≡ false
    → AllPass test n xs
    → AllPass (without x test) n xs
AllPass-without test x n [] c h = tt
AllPass-without test x n (b ∷ xs) c h = ground (arith, AllPass-without test x n xs)

-- Distinct numbers that pass a test are at most as many as there are.
distinct-count :
    (test : ℕ → Bool) (n : ℕ) (xs : List ℕ)
    → distinct xs ≡ true
    → AllPass test n xs
    → length xs ≤ count test n
distinct-count test n [] d h = omega arith
distinct-count test n (x ∷ xs) d h =
    let new : contains xs x ≡ false = ground arith in
    let rest : distinct xs ≡ true = ground arith in
    let few = distinct-count (without x test) n xs rest (AllPass-without test x n xs new h.1) in
    omega (arith, few, count-without test x n h.0.0 h.0.1)

-- A path has someone on it who is no traitor, or all are traitors.
find_loyal :
    (loyal : ℕ → Bool) (n : ℕ) (xs : List ℕ)
    → All (λ (b : ℕ). b < n) xs
    → contains xs 0 ≡ false
    → ((b : ℕ) × (contains xs b ≡ true) × (b < n) × (b ≢ 0) × (loyal b ≡ true))
      ⊎ AllPass (is_traitor loyal) n xs
find_loyal loyal n [] h c = inr tt
find_loyal loyal n (x ∷ xs) h c = elim (Bool-cases (loyal x)) [
  | inl y ↦ inl (x, ground arith, h.0, ground arith, y)
  | inr y ↦ elim (find_loyal loyal n xs h.1 (ground arith)) [
    | inl (b, i, lt, z, e) ↦ inl (b, ground arith, lt, z, e)
    | inr k ↦ inr ((h.0, ground arith), k)
  ]
]

-- A path from the commander over more lieutenants than there are traitors names a loyal one.
pub loyal_on_path :
    (loyal : ℕ → Bool) (n faulty : ℕ) (ids : List ℕ)
    → count (is_traitor loyal) n ≤ faulty
    → length ids ≡ faulty + 2
    → get_elem? ids 0 ≡ some 0
    → All (λ (b : ℕ). b < n) ids
    → distinct ids ≡ true
    → (b : ℕ) × (contains ids b ≡ true) × (b < n) × (b ≢ 0) × (loyal b ≡ true)
loyal_on_path loyal n faulty [] few long first h d = absurd (omega (arith, long))
loyal_on_path loyal n faulty (x ∷ xs) few long first h d =
    elim (find_loyal loyal n xs h.1 (ground (arith, first, d))) [
      | inl (b, i, lt, z, e) ↦ (b, ground arith, lt, z, e)
      | inr k ↦
          absurd (omega (arith, few, long, distinct-count (is_traitor loyal) n xs (ground arith) k))
    ]
