-- ===== src/Net.antt =====
-- src/net.h and src/net.cc: addresses, and reading one from a line of the hostfile. `std::stoi` is
-- the standard library's: blanks, a sign, digits, and anything behind them.
pub mod Read
pub mod Errors
mod Tests
use Prim.Native.Nat.{bit_xor}
use byzantine_agreement.Common.{
  ℕ, zero, suc, ◌+◌, ◌-◌, ◌*◌, ◌^◌, ◌≡◌, refl, arith, Bool, true, false, not, ◌&&◌, ◌||◌, List, [],
  ◌∷◌, ◌++◌, Option, none, some, ltb, leb, ◌==◌, if◌then◌else◌, list_eq, Text, codes, Result, ok,
  throw, Exception, ◌>>=◌, drop, take,
}
use byzantine_agreement.Common.Int.{ℤ, pos, negsuc, to_u16}
use byzantine_agreement.Msg.{decimal}

pub record Address : Type 0 where
  pub hostname : Text
  pub port : ℕ

-- `operator==` and `operator!=`
unfoldable pub address_eq : Address → Address → Bool
address_eq a other = list_eq a.hostname other.hostname && a.port == other.port

unfoldable pub address_ne : Address → Address → Bool
unfolding address_eq
address_ne a other = not (address_eq a other)

-- `AHash`, given the standard library's hashes of a text and of a port.
unfoldable pub address_hash : (Text → ℕ) → (ℕ → ℕ) → Address → ℕ
address_hash text_hash port_hash a = bit_xor (text_hash a.hostname) (port_hash a.port)

-- `operator<<`
unfoldable pub show_address : Address → Text
show_address addr = addr.hostname ++ (codes ":" ++ decimal addr.port)

unfoldable pub is_space : ℕ → Bool
is_space c = c == 32 || (leb 9 c && leb c 13)

unfoldable pub is_digit : ℕ → Bool
is_digit c = leb b'0' c && leb c b'9'

unfoldable pub skip_space : Text → Text
unfolding is_space
skip_space [] = []
skip_space (c ∷ s) = if is_space c then skip_space s else c ∷ s

unfoldable pub read_digits : ℕ → Text → ℕ
unfolding is_digit
read_digits value [] = value
read_digits value (c ∷ s) = if is_digit c then read_digits (value * 10 + (c - b'0')) s else value

-- The number behind the sign; an `int` lies from -2 ^ 31 to 2 ^ 31 - 1.
unfoldable pub read_magnitude : Bool → Text → Result ℤ
unfolding read_digits
read_magnitude negative [] = throw Exception.invalid_argument
read_magnitude negative (c ∷ s) =
    let value = read_digits 0 (c ∷ s) in
    if not (is_digit c)
    then throw Exception.invalid_argument
    else if not negative
    then (if ltb value (2 ^ 31) then ok (pos value) else throw Exception.out_of_range)
    else if value == 0
    then ok (pos 0)
    else if leb value (2 ^ 31)
    then ok (negsuc (value - 1))
    else throw Exception.out_of_range

unfoldable pub read_signed : Text → Result ℤ
unfolding read_magnitude
read_signed [] = throw Exception.invalid_argument
read_signed (c ∷ s) =
    if c == b'-'
    then read_magnitude true s
    else if c == b'+'
    then read_magnitude false s
    else read_magnitude false (c ∷ s)

-- `std::stoi`
unfoldable pub stoi : Text → Result ℤ
unfolding skip_space read_signed
stoi s = read_signed (skip_space s)

-- `addr.find(":")`, `none` for `npos`
unfoldable pub find_colon : Text → Option ℕ
find_colon [] = none
find_colon (c ∷ s) =
    if c == b':' then some 0 else elim (find_colon s) [ none ↦ none | some i ↦ some (suc i) ]

unfoldable pub address_with_default_port : Text → Option ℕ → Result Address
address_with_default_port addr port = elim (find_colon addr) [
  | some found ↦ do
    p ← stoi (drop (found + 1) addr)
    ok (record { hostname = take found addr; port = to_u16 p })
  | none ↦ elim port [
    | none ↦ throw Exception.invalid_argument
    | some p ↦ ok (record { hostname = addr; port = p })
  ]
]
