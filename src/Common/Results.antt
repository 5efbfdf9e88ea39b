-- ===== src/Common/Results.antt =====
-- C++ exceptions as values: what a function that may throw returns.
use mathlib.Core.Path.{◌≡◌, refl, ap}
use mathlib.Core.Logic.{◌⊎◌, inl, inr}

-- The exceptions that the program throws, its own and the standard library's; and how a call ends
-- that nothing can catch: `process_terminated` where an exception left a thread (`std::terminate`),
-- `join_blocked` where it waits for ever for a thread.
pub data Exception : Type 0 where
  invalid_argument : Exception
  logic_error : Exception
  out_of_range : Exception
  runtime_error : Exception
  usage_error : Exception
  validation_error : Exception
  socket_exception : Exception
  host_not_found_exception : Exception
  bind_exception : Exception
  send_exception : Exception
  receive_exception : Exception
  process_terminated : Exception
  join_blocked : Exception

pub data Result {ℓ} (A : Type ℓ) : Type ℓ where
  ok : A → Result A
  throw : Exception → Result A

infixl 5 ◌>>=◌
abbrev pub ◌>>=◌ {ℓ κ} : {A : Type ℓ} {B : Type κ} → Result A → (A → Result B) → Result B
ok a >>= f = f a
throw e >>= f = throw e

pub Result-cases {ℓ} :
    {A : Type ℓ} (r : Result A) → ((a : A) × (r ≡ ok a)) ⊎ ((e : Exception) × (r ≡ throw e))
Result-cases (ok a) = inl (a, refl)
Result-cases (throw e) = inr (e, refl)

pub ok-injective {ℓ} : {A : Type ℓ} {a b : A} → ok a ≡ ok b → a ≡ b
ok-injective e = cc

-- Inversion of a successful bind.
pub >>=-eq-ok {ℓ κ} :
    {A : Type ℓ} {B : Type κ} (r : Result A) (next : A → Result B) {out : B}
    → (r >>= next) ≡ ok out
    → (a : A) × (r ≡ ok a) × (next a ≡ ok out)
>>=-eq-ok (throw e) next h = cc
>>=-eq-ok (ok a) next h = (a, refl, h)

pub bind_ok {ℓ κ} :
    {A : Type ℓ} {B : Type κ} {r : Result A} {a : A} (f : A → Result B) → r ≡ ok a → (r >>= f) ≡ f a
bind_ok f e = ap (λ k. k >>= f) e
