-- ===== src/Net/Read.antt =====
-- `AddressWithDefaultPort` of src/net.cc on printed addresses.
use byzantine_agreement.Common.{
  ℕ, zero, suc, ◌+◌, ◌/◌, ◌%◌, ◌^◌, ◌<◌, ◌≡◌, refl, ap, ◌∙◌, arith, true, false, [], ◌∷◌, ◌++◌,
  Option, some, ◌==◌, length, Text, ok, drop, take, contains, Bool-cases, inl, inr,
}
use byzantine_agreement.Common.Int.{ℤ, pos, to_u16}
use byzantine_agreement.Msg.{decimal, decimal_loop}
use byzantine_agreement.Net.{
  Address, show_address, is_digit, read_digits, stoi, find_colon, address_with_default_port,
}

read_digits-decimal_loop :
    (fuel n : ℕ) (tail : Text)
    → n < fuel
    → read_digits 0 (decimal_loop fuel n tail) ≡ read_digits n tail
unfolding decimal_loop read_digits
read_digits-decimal_loop zero n tail h = absurd (omega arith)
read_digits-decimal_loop (suc fuel) n tail h =
    ground (arith, read_digits-decimal_loop fuel (n / 10) ((48 + n % 10) ∷ tail))

decimal_loop-digit :
    (fuel n : ℕ) (tail : Text)
    → n < fuel
    → (c : ℕ) × ((s : Text) × (decimal_loop fuel n tail ≡ c ∷ s) × (is_digit c ≡ true))
unfolding decimal_loop is_digit
decimal_loop-digit zero n tail h = absurd (omega arith)
decimal_loop-digit (suc fuel) n tail h = elim (Bool-cases (n / 10 == 0)) [
  | inl last ↦ (48 + n % 10, (tail, rw last, ground arith))
  | inr more ↦ rw more (decimal_loop-digit fuel (n / 10) ((48 + n % 10) ∷ tail) (ground arith))
]

read_signed-digit :
    (c : ℕ) (s : Text)
    → is_digit c ≡ true
    → read_digits 0 (c ∷ s) < 2 ^ 31
    → stoi (c ∷ s) ≡ ok (pos (read_digits 0 (c ∷ s)))
unfolding stoi
read_signed-digit c s d h = ground arith

decimal_value : (n : ℕ) → read_digits 0 (decimal_loop (n + 1) n []) ≡ n
unfolding read_digits
decimal_value n = read_digits-decimal_loop (n + 1) n [] (omega arith)

-- `stoi` reads a number below 2 ^ 31 back from its decimal digits.
pub stoi-decimal : (n : ℕ) → n < 2 ^ 31 → stoi (decimal n) ≡ ok (pos n)
unfolding decimal
stoi-decimal n h =
    let (c, (s, e, d)) = decimal_loop-digit (n + 1) n [] (omega arith) in
    let v : read_digits 0 (decimal_loop (n + 1) n []) ≡ n = decimal_value n in
    let v' : read_digits 0 (c ∷ s) ≡ n = rw e at v in
    rw e (read_signed-digit c s d (rw v' h) ∙ ap (λ k. ok (pos k)) v')

find_colon-append :
    (s rest : Text) → contains s b':' ≡ false → find_colon (s ++ b':' ∷ rest) ≡ some (length s)
unfolding find_colon
find_colon-append [] rest h = refl
find_colon-append (c ∷ s) rest h = ground (arith, find_colon-append s rest)

take-append : (s rest : Text) → take (length s) (s ++ rest) ≡ s
take-append [] rest = refl
take-append (c ∷ s) rest = ap (◌∷◌ c) (take-append s rest)

drop-append : (s : Text) (c : ℕ) (rest : Text) → drop (length s + 1) (s ++ c ∷ rest) ≡ rest
drop-append [] c rest = refl
drop-append (x ∷ s) c rest = ground (arith, drop-append s c rest)

address_with_default_port-found :
    (addr : Text) (port : Option ℕ) {found : ℕ} {p : ℤ}
    → find_colon addr ≡ some found
    → stoi (drop (found + 1) addr) ≡ ok p
    → address_with_default_port addr port
      ≡ ok (record { hostname = take found addr; port = to_u16 p })
unfolding address_with_default_port
address_with_default_port-found addr port e e' = rw (e, address_with_default_port) (rw e')

to_u16-pos : (n : ℕ) → n < 2 ^ 16 → to_u16 (pos n) ≡ n
unfolding to_u16
to_u16-pos n h = omega arith

-- An address whose host name has no colon and whose port is a 16-bit number is read back from its
-- printed form, whatever the default port is.
pub address_with_default_port-show_address :
    (a : Address) (default_port : Option ℕ)
    → contains a.hostname b':' ≡ false
    → a.port < 2 ^ 16
    → address_with_default_port (show_address a) default_port ≡ ok a
unfolding show_address
address_with_default_port-show_address a default_port h p =
    address_with_default_port-found (show_address a) default_port {p = pos a.port}
      (find_colon-append a.hostname (decimal a.port) h)
      (rw (drop-append a.hostname b':' (decimal a.port)) (stoi-decimal a.port (omega arith)))
    ∙ rw (take-append a.hostname (b':' ∷ decimal a.port), to_u16-pos a.port p)
