-- ===== src/Wire/Reencoded.antt =====
-- Buffers that `ByzantineMsgFromBuf` of src/general.cc decodes, as `SendMessage` would fill them.
use byzantine_agreement.Common.{
  ℕ, zero, suc, ◌+◌, ◌-◌, ◌*◌, ◌/◌, ◌%◌, ◌^◌, ◌<◌, ◌≤◌, ◌≡◌, refl, sym, ap, ◌∙◌, arith, List, [],
  ◌∷◌, ◌++◌, some, length, take, drop, All, dec_lt,
}
use byzantine_agreement.Msg.{Message, order_code, order_of_code}
use byzantine_agreement.Wire.{
  word_bytes, word_at, read_words, write_words, byzantine_msg_from_buf, message_buf,
}
use byzantine_agreement.Wire.RoundTrip.{IsWide, length-write_words}
use byzantine_agreement.Wire.Sizes.{length-read_words}

abbrev pub AreBytes : List ℕ → Type 0
AreBytes buf = All (λ b. b < 256) buf

AreBytes-drop : (n : ℕ) (buf : List ℕ) → AreBytes buf → AreBytes (drop n buf)
AreBytes-drop zero buf h = h
AreBytes-drop (suc n) [] h = tt
AreBytes-drop (suc n) (b ∷ buf) h = AreBytes-drop n buf h.1

length-drop : {A : Type 0} (n : ℕ) (xs : List A) → length (drop n xs) ≡ length xs - n
length-drop zero xs = omega arith
length-drop (suc n) [] = omega arith
length-drop (suc n) (x ∷ xs) = omega (arith, length-drop n xs)

drop-nil : {A : Type 0} (n : ℕ) → drop {A = A} n [] ≡ []
drop-nil zero = refl
drop-nil (suc n) = refl

take-nil : {A : Type 0} (n : ℕ) → take {A = A} n [] ≡ []
take-nil zero = refl
take-nil (suc n) = refl

drop-drop : {A : Type 0} (n k : ℕ) (xs : List A) → drop n (drop k xs) ≡ drop (k + n) xs
drop-drop n zero xs = ap (λ m. drop m xs) (omega arith)
drop-drop n (suc k) [] = drop-nil n ∙ sym (drop-nil (suc k + n))
drop-drop n (suc k) (x ∷ xs) =
    let e : suc (k + n) ≡ suc k + n = omega arith in drop-drop n k xs ∙ ap (λ m. drop m (x ∷ xs)) e

take-split :
    {A : Type 0} (n k : ℕ) (xs : List A) → take (n + k) xs ≡ take n xs ++ take k (drop n xs)
take-split zero k xs = ap (λ m. take m xs) (omega arith)
take-split (suc n) k [] = take-nil (suc n + k) ∙ sym (take-nil k)
take-split (suc n) k (x ∷ xs) =
    let e : suc n + k ≡ suc (n + k) = omega arith in
    ap (λ m. take m (x ∷ xs)) e ∙ ap (λ ys. x ∷ ys) (take-split n k xs)

word_at-fits : (buf : List ℕ) → AreBytes buf → word_at buf < 2 ^ 32
unfolding word_at
word_at-fits (a ∷ b ∷ c ∷ d ∷ rest) h = omega (arith, h.0, h.1.0, h.1.1.0, h.1.1.1.0)
word_at-fits [] h = omega arith
word_at-fits (a ∷ []) h = omega arith
word_at-fits (a ∷ b ∷ []) h = omega arith
word_at-fits (a ∷ b ∷ c ∷ []) h = omega arith

four :
    (a b c d : ℕ)
    → a < 256
    → b < 256
    → c < 256
    → d < 256
    → word_bytes (a * 2 ^ 24 + b * 2 ^ 16 + c * 2 ^ 8 + d) ≡ a ∷ b ∷ c ∷ d ∷ []
unfolding word_bytes
four a b c d ha hb hc hd =
    let e₀ : (a * 2 ^ 24 + b * 2 ^ 16 + c * 2 ^ 8 + d) / 2 ^ 24 % 256 ≡ a = omega arith in
    let e₁ : (a * 2 ^ 24 + b * 2 ^ 16 + c * 2 ^ 8 + d) / 2 ^ 16 % 256 ≡ b = omega arith in
    let e₂ : (a * 2 ^ 24 + b * 2 ^ 16 + c * 2 ^ 8 + d) / 2 ^ 8 % 256 ≡ c = omega arith in
    let e₃ : (a * 2 ^ 24 + b * 2 ^ 16 + c * 2 ^ 8 + d) % 256 ≡ d = omega arith in
    rw (e₀, e₁, e₂, e₃) refl

word_bytes-word_at :
    (buf : List ℕ) → AreBytes buf → 4 ≤ length buf → word_bytes (word_at buf) ≡ take 4 buf
unfolding word_at
word_bytes-word_at (a ∷ b ∷ c ∷ d ∷ rest) h l = four a b c d h.0 h.1.0 h.1.1.0 h.1.1.1.0
word_bytes-word_at [] h l = absurd (omega arith)
word_bytes-word_at (a ∷ []) h l = absurd (omega arith)
word_bytes-word_at (a ∷ b ∷ []) h l = absurd (omega arith)
word_bytes-word_at (a ∷ b ∷ c ∷ []) h l = absurd (omega arith)

write_words-read_words :
    (k : ℕ) (buf : List ℕ)
    → AreBytes buf
    → 4 * k ≤ length buf
    → write_words (read_words k buf) ≡ take (4 * k) buf
unfolding write_words read_words
write_words-read_words zero buf h l = refl
write_words-read_words (suc k) buf h l =
    let first = word_bytes-word_at buf h (omega arith) in
    let others =
      write_words-read_words k (drop 4 buf) (AreBytes-drop 4 buf h)
        (omega (arith, length-drop 4 buf)) in
    (λ i. first i ++ others i)
    ∙ (sym (take-split 4 (4 * k) buf) ∙ ap (λ n. take n buf) (omega arith))

read_words-fit : (k : ℕ) (buf : List ℕ) → AreBytes buf → All (λ i. i < 2 ^ 32) (read_words k buf)
unfolding read_words
read_words-fit zero buf h = tt
read_words-fit (suc k) buf h =
    (word_at-fits buf h, read_words-fit k (drop 4 buf) (AreBytes-drop 4 buf h))

order_code-order_of_code : (n : ℕ) → order_code (order_of_code n) ≡ n
unfolding order_code order_of_code
order_code-order_of_code zero = refl
order_code-order_of_code (suc zero) = refl
order_code-order_of_code (suc (suc zero)) = refl
order_code-order_of_code (suc (suc (suc n))) = omega arith

-- What is decoded, word by word.
decoded :
    (buf : List ℕ) (m : Message)
    → byzantine_msg_from_buf buf ≡ some m
    → (16 ≤ length buf)
      × (m.round ≡ word_at (drop 8 buf))
      × (m.order ≡ order_of_code (word_at (drop 12 buf)))
      × (m.ids ≡ read_words ((length buf - 16) / 4) (drop 16 buf))
unfolding byzantine_msg_from_buf
decoded buf m e = elim (dec_lt (length buf) 16) [
  | yes short ↦ absurd (ground (arith, short, e))
  | no long ↦ (
    omega (arith, long),
    ground (arith, long, e),
    ground (arith, long, e),
    ground (arith, long, e),
  )
]

-- The words after the header, as they stand in the buffer.
three_parts :
    (k : ℕ) (buf : List ℕ)
    → AreBytes buf
    → 16 + 4 * k ≤ length buf
    → word_bytes (word_at (drop 8 buf))
        ++ (word_bytes (word_at (drop 12 buf)) ++ write_words (read_words k (drop 16 buf)))
      ≡ take (8 + 4 * k) (drop 8 buf)
three_parts k buf h l =
    let round =
      word_bytes-word_at (drop 8 buf) (AreBytes-drop 8 buf h) (omega (arith, length-drop 8 buf)) in
    let order =
      word_bytes-word_at (drop 12 buf) (AreBytes-drop 12 buf h)
        (omega (arith, length-drop 12 buf)) in
    let ids =
      write_words-read_words k (drop 16 buf) (AreBytes-drop 16 buf h)
        (omega (arith, length-drop 16 buf)) in
    let back : take 4 (drop 12 buf) ++ take (4 * k) (drop 16 buf) ≡ take (4 + 4 * k) (drop 12 buf) =
      ap (λ t. take 4 (drop 12 buf) ++ take (4 * k) t) (sym (drop-drop 4 12 buf))
      ∙ sym (take-split 4 (4 * k) (drop 12 buf)) in
    (λ i. round i ++ (order i ++ ids i))
    ∙ (ap (λ t. take 4 (drop 8 buf) ++ t) back
        ∙ (ap (λ t. take 4 (drop 8 buf) ++ take (4 + 4 * k) t) (sym (drop-drop 4 8 buf))
            ∙ (sym (take-split 4 (4 + 4 * k) (drop 8 buf))
                ∙ ap (λ n. take n (drop 8 buf)) (omega arith))))

length-message_buf : (m : Message) → length (message_buf m) ≡ 16 + 4 * length m.ids
unfolding message_buf word_bytes
length-message_buf m = omega (arith, length-write_words m.ids)

after_header :
    (m : Message)
    → drop 8 (message_buf m)
      ≡ word_bytes m.round ++ (word_bytes (order_code m.order) ++ write_words m.ids)
unfolding message_buf word_bytes
after_header m = refl

-- A message that is decoded from a buffer of bytes has numbers that are 32-bit words, so that it can
-- be sent on, and the buffer that it is sent on in is the one it came in, but for the eight bytes of
-- the header and for bytes at the end that are no whole word.
pub message_buf-byzantine_msg_from_buf :
    (buf : List ℕ) (m : Message)
    → AreBytes buf
    → byzantine_msg_from_buf buf ≡ some m
    → IsWide m
      × (length (message_buf m) ≡ length buf - length buf % 4)
      × (drop 8 (message_buf m) ≡ take (length buf - length buf % 4 - 8) (drop 8 buf))
message_buf-byzantine_msg_from_buf buf m h e =
    let (long, round, order, ids) = decoded buf m e in
    let code : order_code m.order ≡ word_at (drop 12 buf) =
      ap order_code order ∙ order_code-order_of_code (word_at (drop 12 buf)) in
    let k = (length buf - 16) / 4 in
    (
      record {
        round_fits = rw round (word_at-fits (drop 8 buf) (AreBytes-drop 8 buf h));
        order_fits = rw code (word_at-fits (drop 12 buf) (AreBytes-drop 12 buf h));
        ids_fit = rw ids (read_words-fit k (drop 16 buf) (AreBytes-drop 16 buf h));
      },
      omega (arith, long, length-message_buf m, ap length ids, length-read_words k (drop 16 buf)),
      after_header m
          ∙ ((λ i. word_bytes (round i) ++ (word_bytes (code i) ++ write_words (ids i)))
              ∙ (three_parts k buf h (omega arith)
                  ∙ ap (λ n. take n (drop 8 buf)) (omega (arith, long)))),
    )
