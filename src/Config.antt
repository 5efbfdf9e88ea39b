-- ===== src/Config.antt =====
-- src/main.cc: the hostfile, the flags and their checks, and the run of the general. The flags as
-- include/args.h parses them are an argument, as are the hostfile's text and what the run meets.
pub mod Places
pub mod Identity
pub mod Checks
pub mod Roles
pub mod Configured
pub mod Agreed
pub mod FirstProcess
mod Tests
mod RunTests
use byzantine_agreement.Common.{
  ℕ, zero, suc, ◌+◌, ◌-◌, ◌%◌, ◌^◌, ◌≡◌, Bool, true, false, not, ◌||◌, List, [], ◌∷◌, ◌++◌, Option,
  none, some, ltb, leb, ◌==◌, if◌then◌else◌, get_elem?, set, length, list_eq, Text, codes, Result,
  ok, throw, Exception, ◌>>=◌, map,
}
use byzantine_agreement.Common.Int.{ℤ, pos, negsuc, to_u16, to_i32, int_eq}
use byzantine_agreement.Net.{Address, address_with_default_port, is_space}
use byzantine_agreement.Msg.{Order, string_to_order, order_string, decimal}
use byzantine_agreement.Behavior.{MaliciousBehavior, rethrow, get_malicious_behavior}
use byzantine_agreement.Udp.{Kernel, SocketCalls, Arrival}
use byzantine_agreement.Generals.Base.{Platform, ProcessList, at_or_throw}
use byzantine_agreement.Generals.Commander.{Commander, new_commander}
use byzantine_agreement.Generals.Lieutenant.{Lieutenant, Readings, new_lieutenant}
use byzantine_agreement.Generals.Commander.{decide as commander_decide}
use byzantine_agreement.Generals.Lieutenant.{decide as lieutenant_decide}

-- The end of a word, if one was begun.
abbrev flush : Text → List Text → List Text
flush [] rest = rest
flush (c ∷ word) rest = (c ∷ word) ∷ rest

-- What repeated `file >> host` reads, from the word that was begun.
unfoldable pub split_words : Text → Text → List Text
unfolding is_space
split_words word [] = flush word []
split_words word (c ∷ s) =
    let rest = split_words (if is_space c then [] else word ++ c ∷ []) s in
    if is_space c then flush word rest else rest

-- `std::stoi` may throw `out_of_range`, which is not caught here.
unfoldable pub add_processes : Option ℕ → List Text → ProcessList → Result ProcessList
add_processes default_port [] processes = ok processes
add_processes default_port (host ∷ rest) processes = do
  addr ← rethrow Exception.usage_error (address_with_default_port host default_port)
  add_processes default_port rest (processes ++ addr ∷ [])

-- `GetProcesses`, `none` for a file that cannot be opened.
unfoldable pub get_processes : Option Text → Option ℕ → Result ProcessList
unfolding split_words add_processes
get_processes none default_port = throw Exception.runtime_error
get_processes (some file) default_port = add_processes default_port (split_words [] file) []

-- `CheckProcessId`; `this_host` is what `net::GetHostname` gives.
unfoldable pub check_process_id : Text → ProcessList → ℤ → Result (Unit {0})
check_process_id this_host processes (negsuc n) = throw Exception.validation_error
check_process_id this_host processes (pos my_id) =
    if leb (length processes) my_id then throw Exception.validation_error else do
      addr ← at_or_throw (get_elem? processes my_id)
      if list_eq addr.hostname this_host then ok tt else throw Exception.validation_error

-- The loop of `GetProcessId`, over the processes from `i` on; -1 for none found.
unfoldable pub find_process_id : Text → ℕ → ProcessList → ℤ → Result ℤ
unfolding to_i32
find_process_id this_host i [] found = ok found
find_process_id this_host i (addr ∷ rest) found =
    let skipped = find_process_id this_host (i + 1) rest found in
    let taken = find_process_id this_host (i + 1) rest (to_i32 i) in
    if list_eq addr.hostname this_host
    then elim found [ pos n ↦ throw Exception.usage_error | negsuc n ↦ taken ]
    else skipped

unfoldable pub get_process_id : Text → ProcessList → Result ℤ
unfolding find_process_id int_eq
get_process_id this_host processes = do
  found ← find_process_id this_host 0 processes (negsuc 0)
  if int_eq found (negsuc 0) then throw Exception.validation_error else ok found

-- `std::iter_swap` of the first element and element `k`, which is there.
unfoldable pub swap_first : ℕ → ProcessList → ProcessList
swap_first zero processes = processes
swap_first (suc k) [] = []
swap_first (suc k) (first ∷ rest) = elim (get_elem? rest k) [
  | none ↦ first ∷ rest
  | some addr ↦ addr ∷ set rest k first
]

-- `ValidateCommanderId`: the processes after the swap.
unfoldable pub validate_commander_id : ProcessList → ℤ → Result ProcessList
unfolding swap_first
validate_commander_id processes (negsuc n) = throw Exception.validation_error
validate_commander_id processes (pos commander_id) =
    if leb (length processes) commander_id
    then throw Exception.validation_error
    else ok (swap_first commander_id processes)

unfoldable pub validate_faulty_count : ProcessList → ℤ → Result (Unit {0})
validate_faulty_count processes (negsuc n) = throw Exception.validation_error
validate_faulty_count processes (pos faulty) =
    if ltb (length processes) (faulty + 2) then throw Exception.validation_error else ok tt

unfoldable pub validate_order : Option Text → Bool → Result (Option Order)
unfolding string_to_order
validate_order none true = throw Exception.usage_error
validate_order (some order) true =
    rethrow Exception.validation_error (string_to_order order) >>= λ o. ok (some o)
validate_order (some order) false = throw Exception.validation_error
validate_order none false = ok none

-- `PrintOrder`
unfoldable pub print_order : ℕ → Order → Result Text
unfolding order_string decimal
print_order id decision = do
  text ← order_string decision
  ok (decimal id ++ (codes ": Agreed on " ++ (text ++ codes "\n")))

-- The values of the flags, which the parser of include/args.h gives.
pub record Flags : Type 0 where
  pub port : Option ℤ
  pub hostfile : Option Text
  pub faulty : Option ℤ
  pub commander_id : Option ℤ
  pub order : Option Text
  pub malicious : List Text
  pub id : Option ℤ

-- What a run meets: the platform, the file system, and the calls for the server's socket.
pub record Host : Type 0 where
  pub platform : Platform
  pub read_file : Text → Option Text
  pub server_calls : SocketCalls
  pub server_bound : ℕ → Bool

abbrev required {ℓ} : {A : Type ℓ} → Option A → Result A
required none = throw Exception.usage_error
required (some a) = ok a

-- The general that `main` creates.
pub data Process : Type 0 where
  commander : Commander → Process
  lieutenant : Lieutenant → Process

-- The id of this process, from the flag or from the hostfile.
unfoldable pub determine_id : Text → ProcessList → Option ℤ → Result ℤ
unfolding check_process_id get_process_id
determine_id this_host processes (some my_id) =
    check_process_id this_host processes my_id >>= λ _. ok my_id
determine_id this_host processes none = get_process_id this_host processes

-- `at` with an int for its index: a negative one is far out of range.
abbrev pub process_at : ProcessList → ℤ → Result (ℕ × Address)
process_at processes (negsuc n) = throw Exception.out_of_range
process_at processes (pos i) = at_or_throw (get_elem? processes i) >>= λ a. ok (i, a)

-- An `int` that was checked to be no less than 0.
abbrev pub to_nat : ℤ → ℕ
to_nat (pos n) = n
to_nat (negsuc n) = 0

unfoldable pub create_general :
    Host → ProcessList → ℕ → ℕ → ℕ → Option Order → MaliciousBehavior → Result Process
-- An order is there just for the commander.
create_general host processes my_id server_port faulty (some order) behavior = do
  c ← new_commander host.platform.kernel processes faulty order behavior
  ok (commander c)
create_general host processes my_id server_port faulty none behavior = do
  l ←
      new_lieutenant host.platform.kernel processes my_id host.server_calls
        (host.server_bound server_port) faulty behavior
  ok (lieutenant l)

-- `main` up to the creation of the general: the id of the process, and the general.
unfoldable pub configure : Host → Flags → Result (ℕ × Process)
unfolding get_processes determine_id validate_commander_id validate_faulty_count validate_order
    create_general int_eq to_u16
configure host flags = do
  hostfile ← required flags.hostfile
  faulty ← required flags.faulty
  commander_id ← required flags.commander_id
  listed ←
      get_processes (host.read_file hostfile)
        (elim flags.port [ none ↦ none | some p ↦ some (to_u16 p) ])
  id ← determine_id host.platform.kernel.this_host listed flags.id
  (my_id, me) ← process_at listed id
  processes ← validate_commander_id listed commander_id
  _ ← validate_faulty_count processes faulty
  let is_commander = int_eq id commander_id
  order ← validate_order flags.order is_commander
  behavior ← get_malicious_behavior flags.malicious is_commander
  p ← create_general host processes my_id me.port (to_nat faulty) order behavior
  ok (my_id, p)

-- `general->Decide()`, given what the server of a lieutenant receives; `none` while it listens.
unfoldable pub run : Platform → List (Arrival Readings) → Process → Result (Option Order)
run p arrivals (commander c) = commander_decide p c >>= λ order. ok (some order)
run p arrivals (lieutenant l) = lieutenant_decide p l arrivals

-- What ends the parser: the help that was asked for, or an error of its own.
pub data Parsed : Type 0 where
  help : Parsed
  parse_error : Parsed
  parsed : Flags → Parsed

-- How `main` ends: its exit code and standard output; or by an exception of `Decide`, whose handler
-- exits with 1 unless the general that is destroyed still has senders to join, which ends the
-- process at once; or an exception that left a thread ends the process; or it still listens, or
-- waits for a thread.
pub data Outcome : Type 0 where
  exits : ℕ → Text → Outcome
  fails : Exception → Outcome
  aborts listens joins : Outcome

-- What becomes of what ends `Decide` but is no decision.
unfoldable pub failure : Exception → Outcome
failure Exception.process_terminated = aborts
failure Exception.join_blocked = joins
failure e = fails e

-- The decision is printed.
unfoldable pub outcome : ℕ → Result (Option Order) → Outcome
unfolding print_order failure
outcome my_id (ok none) = listens
outcome my_id (ok (some decision)) = elim (print_order my_id decision) [
  | ok out ↦ exits 0 out
  | throw e ↦ exits 1 []
]
outcome my_id (throw e) = failure e

-- `main`; `usage` is what the parser prints for the help.
unfoldable pub main : Host → Text → List (Arrival Readings) → Parsed → Outcome
unfolding configure run outcome
main host usage arrivals help = exits 0 usage
main host usage arrivals parse_error = exits 1 []
main host usage arrivals (parsed flags) = elim (configure host flags) [
  | ok (my_id, p) ↦ outcome my_id (run host.platform arrivals p)
  | throw e ↦ exits 1 []
]
