-- ===== src/Generals/Paths/Counted.antt =====
-- How many lists of ids there are for a round.
use native.Mathlib.Nat.{mul_left_comm}
use byzantine_agreement.Common.{
  ℕ, ℕ_discrete, ap, sym, zero, suc, ◌-◌, ◌*◌, ◌<◌, ◌≡◌, ◌≢◌, ◌∙◌, refl, arith, true, false, List,
  [], ◌∷◌, length, length-append, contains, map,
}
use byzantine_agreement.OrderedSet.Laws.{IsOrdered, Above}
use byzantine_agreement.OrderedSet.Vectors.{nat_order}
use byzantine_agreement.Generals.Count.{falling}
use byzantine_agreement.Generals.Paths.{
  without, numbers, beginning, arrangements, others, all_paths,
}
use byzantine_agreement.Generals.Paths.Members.{contains-numbers}
use byzantine_agreement.Generals.Paths.Order.{without-IsOrdered, numbers-IsOrdered}

length-map {ℓ κ} :
    {A : Type ℓ} {B : Type κ} (f : A → B) (xs : List A) → length (map f xs) ≡ length xs
length-map f [] = refl
length-map f (x ∷ xs) = ap suc (length-map f xs)

Above-none : (x : ℕ) (s : List ℕ) → Above x s → contains s x ≡ false
Above-none x [] h = refl
Above-none x (y ∷ s) h = ground (arith, h.0, Above-none x s h.1)

without-none : (x : ℕ) (s : List ℕ) → contains s x ≡ false → without x s ≡ s
without-none x [] h = refl
without-none x (y ∷ s) h = ground (arith, h, without-none x s)

-- A set loses one element.
length-without :
    (x : ℕ) (s : List ℕ) → IsOrdered s → contains s x ≡ true → length s ≡ suc (length (without x s))
length-without x [] h c = absurd (ground (arith, c))
length-without x (y ∷ s) h c = elim (ℕ_discrete y x) [
  | yes e ↦
      let same : without x s ≡ s = without-none x s (rw (sym e) (Above-none y s h.0)) in
      ground (arith, same, e)
  | no e ↦ ground (arith, length-without x s h.1, c, e)
]

-- Each beginning gives as many lists.
length-beginning :
    (f : List ℕ → List (List ℕ)) (m : ℕ) (xs s : List ℕ)
    → ((x : ℕ) → contains xs x ≡ true → length (f (without x s)) ≡ m)
    → length (beginning f xs s) ≡ length xs * m
length-beginning f m [] s h = omega arith
length-beginning f m (x ∷ xs) s h =
    let front : length (map (λ l. x ∷ l) (f (without x s))) ≡ m =
      length-map (λ l. x ∷ l) (f (without x s)) ∙ h x (ground arith) in
    let back : length (beginning f xs s) ≡ length xs * m =
      length-beginning f m xs s (λ z c. h z (ground (arith, c))) in
    length-append (map (λ l. x ∷ l) (f (without x s))) (beginning f xs s)
    ∙ rw (front, back) (omega arith)

-- k * (k - 1) * … with r factors.
abbrev picks : ℕ → ℕ → ℕ
picks zero k = 1
picks (suc r) k = k * picks r (k - 1)

length-arrangements :
    (r : ℕ) (s : List ℕ) → IsOrdered s → length (arrangements r s) ≡ picks r (length s)
length-arrangements zero s h = refl
length-arrangements (suc r) s h =
    length-beginning (arrangements r) (picks r (length s - 1)) s s (λ x c.
      length-arrangements r (without x s) (without-IsOrdered x s h)
      ∙ ap (picks r) (omega (arith, length-without x s h c)))

length-numbers : (a k : ℕ) → length (numbers a k) ≡ k
length-numbers a zero = refl
length-numbers a (suc k) = ap suc (length-numbers (suc a) k)

length-others : (n me : ℕ) → me ≢ 0 → me < n → length (others n me) ≡ n - 2
length-others n me z h =
    let here : contains (numbers 1 (n - 1)) me ≡ true =
      ground (arith, contains-numbers 1 (n - 1) me, z, h) in
    omega (
      arith,
      length-without me (numbers 1 (n - 1)) (numbers-IsOrdered 1 (n - 1)) here,
      length-numbers 1 (n - 1),
    )

-- The last factor instead of the first.
picks-last : (r k : ℕ) → picks (suc r) k ≡ (k - r) * picks r k
picks-last zero k = omega arith
picks-last (suc r) k =
    let before : picks (suc r) (k - 1) ≡ (k - 1 - r) * picks r (k - 1) = picks-last r (k - 1) in
    rw before (
      mul_left_comm k (k - 1 - r) (picks r (k - 1))
      ∙ ap (λ d. d * (k * picks r (k - 1))) (omega arith))

picks-falling : (r n : ℕ) → picks r (n - 2) ≡ falling n r
picks-falling zero n = refl
picks-falling (suc r) n =
    picks-last r (n - 2) ∙ rw (picks-falling r n) (ap (λ k. k * falling n r) (omega arith))

pub length-all_paths :
    (n me round : ℕ) → me ≢ 0 → me < n → length (all_paths n me round) ≡ falling n round
length-all_paths n me round z h =
    length-map (λ l. 0 ∷ l) (arrangements round (others n me))
    ∙ length-arrangements round (others n me)
        (without-IsOrdered me (numbers 1 (n - 1)) (numbers-IsOrdered 1 (n - 1)))
    ∙ ap (picks round) (length-others n me z h)
    ∙ picks-falling round n
