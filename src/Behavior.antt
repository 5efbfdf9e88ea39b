-- ===== src/Behavior.antt =====
-- Malicious behaviours as bit flags: src/general.h and src/general.cc, and the --malicious flag of
-- src/main.cc. `--malicious` is the list of its values.
pub mod Flags
mod Tests
use Prim.Native.Nat.{bit_or, bit_and}
use byzantine_agreement.Common.{
  ℕ, ◌≡◌, refl, arith, Bool, true, false, not, List, [], ◌∷◌, ◌==◌, if◌then◌else◌, list_eq, Text,
  codes, Result, ok, throw, Exception, ◌>>=◌,
}

-- `enum class MaliciousBehavior`: an int of bit flags.
abbrev pub MaliciousBehavior : Type 0
MaliciousBehavior = ℕ

abbrev pub none_behavior : MaliciousBehavior
none_behavior = 0

abbrev pub silent : MaliciousBehavior
silent = 1

abbrev pub delay_send : MaliciousBehavior
delay_send = 2

abbrev pub partial_send : MaliciousBehavior
partial_send = 4

abbrev pub wrong_order : MaliciousBehavior
wrong_order = 8

-- `operator&`
unfoldable pub behavior_and : MaliciousBehavior → MaliciousBehavior → MaliciousBehavior
behavior_and a b = bit_and a b

-- `operator|`
unfoldable pub behavior_or : MaliciousBehavior → MaliciousBehavior → MaliciousBehavior
behavior_or a b = bit_or a b

-- `operator&=`: what `a` becomes.
unfoldable pub and_assign : MaliciousBehavior → MaliciousBehavior → MaliciousBehavior
and_assign a b = bit_and a b

-- `operator|=`: what `a` becomes.
unfoldable pub or_assign : MaliciousBehavior → MaliciousBehavior → MaliciousBehavior
or_assign a b = bit_or a b

unfoldable pub exhibits : MaliciousBehavior → MaliciousBehavior → Bool
unfolding behavior_and
exhibits b test = not (behavior_and b test == none_behavior)

unfoldable pub string_to_malicious_behavior : Text → Result MaliciousBehavior
string_to_malicious_behavior str =
    if list_eq str (codes "silent")
    then ok silent
    else if list_eq str (codes "delay_send")
    then ok delay_send
    else if list_eq str (codes "partial_send")
    then ok partial_send
    else if list_eq str (codes "wrong_order")
    then ok wrong_order
    else throw Exception.invalid_argument

unfoldable pub malicious_behavior_string : MaliciousBehavior → Result Text
malicious_behavior_string m =
    if m == silent
    then ok (codes "silent")
    else if m == delay_send
    then ok (codes "delay_send")
    else if m == partial_send
    then ok (codes "partial_send")
    else if m == wrong_order
    then ok (codes "wrong_order")
    else throw Exception.invalid_argument

-- `catch (std::invalid_argument e) { throw e'; }`
abbrev pub rethrow {ℓ} : {A : Type ℓ} → Exception → Result A → Result A
rethrow e' (ok a) = ok a
rethrow e' (throw Exception.invalid_argument) = throw e'
rethrow e' (throw e) = throw e

-- The loop over the flag's values, from the behaviours collected so far.
unfoldable pub collect_behaviors : MaliciousBehavior → List Text → Result MaliciousBehavior
unfolding string_to_malicious_behavior or_assign
collect_behaviors b [] = ok b
collect_behaviors b (mal ∷ rest) = do
  flag ← string_to_malicious_behavior mal
  collect_behaviors (or_assign b flag) rest

-- The loop over the behaviours that this kind of general cannot have.
unfoldable pub reject_behaviors : List MaliciousBehavior → MaliciousBehavior → Result (Unit {0})
unfolding exhibits malicious_behavior_string
reject_behaviors [] b = ok tt
reject_behaviors (not_avail ∷ rest) b =
    if exhibits b not_avail
    then (malicious_behavior_string not_avail >>= λ _. throw Exception.validation_error)
    else reject_behaviors rest b

abbrev pub only_lieutenant_behavior : List MaliciousBehavior
only_lieutenant_behavior = silent ∷ partial_send ∷ []

abbrev pub only_commander_behavior : List MaliciousBehavior
only_commander_behavior = wrong_order ∷ []

unfoldable pub get_malicious_behavior : List Text → Bool → Result MaliciousBehavior
unfolding collect_behaviors reject_behaviors
get_malicious_behavior malicious is_commander = do
  b ← rethrow Exception.validation_error (collect_behaviors none_behavior malicious)
  reject_behaviors (if is_commander then only_lieutenant_behavior else only_commander_behavior) b
      >>= λ _. ok b
