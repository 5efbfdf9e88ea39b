-- ===== src/Config/Places.antt =====
-- `GetProcessId` and `ValidateCommanderId` of src/main.cc: places in the process list.
use byzantine_agreement.Common.{
  ℕ, zero, suc, ◌+◌, ◌%◌, ◌^◌, ◌<◌, ◌≤◌, ◌≡◌, refl, arith, List, [], ◌∷◌, some, get_elem?, set,
  get_elem?-lt, length, if◌then◌else◌, Text, list_eq, Result, ok, throw, Exception, ◌==◌, ◌>>=◌,
}
use byzantine_agreement.Common.Int.{ℤ, pos, negsuc, to_i32, int_eq}
use byzantine_agreement.Generals.Base.{ProcessList}
use byzantine_agreement.Config.{find_process_id, get_process_id, swap_first, validate_commander_id}

-- The index that stands at `j` after the swap of index 0 and index `k`.
abbrev pub swapped : ℕ → ℕ → ℕ
swapped k j = if j == 0 then k else if j == k then 0 else j

get_elem?-set :
    {A : Type 0} (xs : List A) (i j : ℕ) (v : A)
    → i < length xs
    → get_elem? (set xs i v) j ≡ (if j == i then some v else get_elem? xs j)
get_elem?-set [] i j v h = absurd (omega arith)
get_elem?-set (x ∷ xs) zero zero v h = refl
get_elem?-set (x ∷ xs) zero (suc j) v h = ground arith
get_elem?-set (x ∷ xs) (suc i) zero v h = ground arith
get_elem?-set (x ∷ xs) (suc i) (suc j) v h = ground (arith, get_elem?-set xs i j v)

get_elem?-swap_first :
    (processes : ProcessList) (k j : ℕ)
    → k < length processes
    → get_elem? (swap_first k processes) j ≡ get_elem? processes (swapped k j)
unfolding swap_first
get_elem?-swap_first processes zero j h = ground arith
get_elem?-swap_first [] (suc k) j h = absurd (omega arith)
get_elem?-swap_first (a ∷ rest) (suc k) zero h =
    let (b, e) = get_elem?-lt rest k (omega arith) in ground arith
get_elem?-swap_first (a ∷ rest) (suc k) (suc j) h =
    let (b, e) = get_elem?-lt rest k (omega arith) in
    let s = get_elem?-set rest k j a (omega arith) in ground arith

-- Given the id of a listed process, `ValidateCommanderId` succeeds, and puts that process first
-- and the first process where it was, every other process staying in its place.
pub validate_commander_id-swapped :
    (processes : ProcessList) (k : ℕ)
    → k < length processes
    → (after : ProcessList) × (validate_commander_id processes (pos k) ≡ ok after)
      × ((j : ℕ) → get_elem? after j ≡ get_elem? processes (swapped k j))
unfolding validate_commander_id
validate_commander_id-swapped processes k h =
    (swap_first k processes, ground arith, λ j. get_elem?-swap_first processes k j h)

-- The places, counted from `i`, of the processes that the host runs.
abbrev pub places : Text → ℕ → ProcessList → List ℕ
places host i [] = []
places host i (addr ∷ rest) =
    let later = places host (i + 1) rest in if list_eq addr.hostname host then i ∷ later else later

-- The one place, if there is just one.
abbrev pub the_place : List ℕ → Result ℤ
the_place [] = throw Exception.validation_error
the_place (k ∷ []) = ok (pos k)
the_place (k ∷ j ∷ ks) = throw Exception.usage_error

-- What the loop makes of the places that are ahead.
abbrev after_none : List ℕ → Result ℤ
after_none [] = ok (negsuc 0)
after_none (k ∷ []) = ok (pos k)
after_none (k ∷ j ∷ ks) = throw Exception.usage_error

abbrev after_one : ℕ → List ℕ → Result ℤ
after_one n [] = ok (pos n)
after_one n (k ∷ ks) = throw Exception.usage_error

find_process_id-after_one :
    (host : Text) (i n : ℕ) (processes : ProcessList)
    → find_process_id host i processes (pos n) ≡ after_one n (places host i processes)
unfolding find_process_id
find_process_id-after_one host i n [] = refl
find_process_id-after_one host i n (addr ∷ rest) =
    ground (arith, find_process_id-after_one host (i + 1) n rest)

to_i32-small : (i : ℕ) → i < 2 ^ 31 → to_i32 i ≡ pos i
unfolding to_i32
to_i32-small i h = let e : i % 2 ^ 32 ≡ i = omega arith in ground arith

after_one-none : (i : ℕ) (ks : List ℕ) → after_one i ks ≡ after_none (i ∷ ks)
after_one-none i [] = refl
after_one-none i (k ∷ ks) = refl

find_process_id-after_none :
    (host : Text) (i : ℕ) (processes : ProcessList)
    → i + length processes ≤ 2 ^ 31
    → find_process_id host i processes (negsuc 0) ≡ after_none (places host i processes)
unfolding find_process_id
find_process_id-after_none host i [] h = refl
find_process_id-after_none host i (addr ∷ rest) h = rw (to_i32-small i (omega arith)) (
    ground (
      arith,
      find_process_id-after_one host (i + 1) i rest,
      find_process_id-after_none host (i + 1) rest (omega arith),
      after_one-none i (places host (i + 1) rest),
    ))

the_place-after_none :
    (ks : List ℕ)
    → (after_none ks >>= λ found.
        if int_eq found (negsuc 0) then throw Exception.validation_error else ok found)
      ≡ the_place ks
unfolding int_eq
the_place-after_none [] = ground arith
the_place-after_none (k ∷ []) = refl
the_place-after_none (k ∷ j ∷ ks) = refl

-- Without the --id flag, a process is the one that the hostfile places on its host: `GetProcessId`
-- gives its place if there is just one, a usage error if there are more, and a validation error if
-- there is none, as long as the number of processes is an int.
pub get_process_id-the_place :
    (host : Text) (processes : ProcessList)
    → length processes ≤ 2 ^ 31
    → get_process_id host processes ≡ the_place (places host 0 processes)
unfolding get_process_id
get_process_id-the_place host processes h =
    rw (find_process_id-after_none host 0 processes (omega arith))
      (the_place-after_none (places host 0 processes))
