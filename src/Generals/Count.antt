-- ===== src/Generals/Count.antt =====
-- `MessagesForRound` of src/general.cc, in 64-bit arithmetic.
use byzantine_agreement.Common.{
  ℕ, zero, suc, ◌+◌, ◌-◌, ◌*◌, ◌%◌, ◌^◌, ◌≤◌, ◌<◌, ◌≡◌, ◌∙◌, refl, sym, subst, dec_lt, arith,
}
use native.Mathlib.Nat.{mod-eq_of_lt}

unfoldable pub messages_for_round : ℕ → ℕ → ℕ
messages_for_round process_num zero = 1
messages_for_round process_num (suc r) =
    (process_num + 2 ^ 64 - 1 + 2 ^ 64 - suc r) % 2 ^ 64 * messages_for_round process_num r % 2 ^ 64

-- The same over unbounded numbers: (n - 2) * (n - 3) * … with `round` factors.
abbrev pub falling : ℕ → ℕ → ℕ
falling n zero = 1
falling n (suc r) = (n - 1 - suc r) * falling n r

falling-pos : (n r : ℕ) → r + 2 ≤ n → 0 < falling n r
falling-pos n zero h = omega arith
falling-pos n (suc r) h = grind (arith, falling-pos n r)

falling_mono : (n r : ℕ) → suc r + 2 ≤ n → falling n r ≤ falling n (suc r)
falling_mono n r h = grind arith

-- While a factor is left, no product wraps.
messages_for_round_before :
    (n r : ℕ) → r + 2 ≤ n → n < 2 ^ 64 → falling n r < 2 ^ 64 → messages_for_round n r ≡ falling n r
unfolding messages_for_round
messages_for_round_before n zero h k f = refl
messages_for_round_before n (suc r) h k f =
    let below : falling n r ≤ falling n (suc r) = falling_mono n r h in
    let factor : (n + 2 ^ 64 - 1 + 2 ^ 64 - suc r) % 2 ^ 64 ≡ n - 1 - suc r = omega arith in
    let before : messages_for_round n r ≡ falling n r =
      messages_for_round_before n r (omega arith) k (omega arith) in
    rw (factor, before) (mod-eq_of_lt f)

-- With as many processes as there are ids in a message, the last factor is 0.
messages_for_round_last : (r : ℕ) → suc r + 1 < 2 ^ 64 → messages_for_round (suc r + 1) (suc r) ≡ 0
unfolding messages_for_round
messages_for_round_last r h =
    let factor : (suc r + 1 + 2 ^ 64 - 1 + 2 ^ 64 - suc r) % 2 ^ 64 ≡ 0 = omega arith in
    rw factor (ground arith)

last-falling : (r n : ℕ) → n ≡ r + 1 → n < 2 ^ 64 → messages_for_round n r ≡ falling n r
unfolding messages_for_round
last-falling zero n e k = refl
last-falling (suc r) n e k =
    let none : messages_for_round (suc r + 1) (suc r) ≡ 0 =
      messages_for_round_last r (subst (λ m. m < 2 ^ 64) e k) in
    let factor : n - 1 - suc r ≡ 0 = omega (arith, e) in
    rw factor (subst (λ m. messages_for_round m (suc r) ≡ 0) (sym e) none ∙ omega arith)

-- The number of messages expected in round r is the product (n - 2) * (n - 3) * … of r factors, for
-- n processes and each round r < n, as long as n and this product fit 64 bits. In round n - 1 the last factor is 0, so that no message is expected.
pub messages_for_round-falling :
    (n r : ℕ) → r < n → n < 2 ^ 64 → falling n r < 2 ^ 64 → messages_for_round n r ≡ falling n r
messages_for_round-falling n r h k f = elim (dec_lt (r + 1) n) [
  | yes before ↦ messages_for_round_before n r (omega (arith, before)) k f
  | no last ↦ last-falling r n (omega (arith, h, last)) k
]
