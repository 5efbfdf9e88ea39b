-- ===== src/Config/Identity.antt =====
-- The id of a process, from the --id flag or from the hostfile: `main`, `CheckProcessId` and
-- `GetProcessId` of src/main.cc.
use byzantine_agreement.Common.{
  ℕ, suc, ◌+◌, ◌^◌, ◌≤◌, ◌≡◌, refl, sym, ap, ◌∙◌, inl, inr, arith, true, List, [], ◌∷◌, Option,
  none, some, get_elem?, length, Text, list_eq, list_eq→eq, ok, leb, ◌==◌, Bool-cases, ok-injective,
  >>=-eq-ok, contains,
}
use byzantine_agreement.Common.Int.{ℤ, pos, negsuc}
use byzantine_agreement.Net.{Address}
use byzantine_agreement.Generals.Base.{ProcessList, at_or_throw}
use byzantine_agreement.Config.{check_process_id, determine_id}
use byzantine_agreement.Config.Places.{places, the_place, get_process_id-the_place}

-- The number is the place of a process on the host.
pub record IsHere (host : Text) (processes : ProcessList) (k : ℕ) : Type 0 where
  pub addr : Address
  pub is_listed : get_elem? processes k ≡ some addr
  pub on_host : addr.hostname ≡ host

is_same : (a b : ℕ) → (a == b) ≡ true → a ≡ b
is_same a b e = ground arith

at_or_throw-some : {A : Type 0} (o : Option A) {a : A} → at_or_throw o ≡ ok a → o ≡ some a
at_or_throw-some none e = cc
at_or_throw-some (some b) e = ap some (ok-injective e)

check_process_id-IsHere :
    (host : Text) (processes : ProcessList) (z : ℤ) {u : Unit {0}}
    → check_process_id host processes z ≡ ok u
    → (k : ℕ) × (z ≡ pos k) × IsHere host processes k
unfolding check_process_id
check_process_id-IsHere host processes (negsuc n) e = cc
check_process_id-IsHere host processes (pos k) e = elim (Bool-cases (leb (length processes) k)) [
  | inl h ↦ cc (rw (h, check_process_id) at e)
  | inr h ↦
      let (addr, e₁, e₂) =
        >>=-eq-ok (at_or_throw (get_elem? processes k)) _ (rw (h, check_process_id) at e) in
      elim (Bool-cases (list_eq addr.hostname host)) [
        | inl same ↦ (
          k,
          refl,
          record {
            addr = addr;
            is_listed = at_or_throw-some (get_elem? processes k) e₁;
            on_host = list_eq→eq addr.hostname host same;
          },
        )
        | inr other ↦ cc (rw other at e₂)
      ]
]

one_further :
    (i : ℕ) {host : Text} {k : ℕ} {addr : Address} {rest : ProcessList}
    → (j : ℕ) × (k ≡ (i + 1) + j) × IsHere host rest j
    → (j : ℕ) × (k ≡ i + j) × IsHere host (addr ∷ rest) j
one_further i (j, e, here) = (
  suc j,
  omega (arith, e),
  record { addr = here.addr; is_listed = here.is_listed; on_host = here.on_host },
)

places-IsHere :
    (host : Text) (i : ℕ) (processes : ProcessList) (k : ℕ)
    → contains (places host i processes) k ≡ true
    → (j : ℕ) × (k ≡ i + j) × IsHere host processes j
places-IsHere host i [] k h = cc
places-IsHere host i (addr ∷ rest) k h = elim (Bool-cases (list_eq addr.hostname host)) [
  | inl same ↦ elim (Bool-cases (i == k)) [
    | inl q ↦ (
      0,
      omega (arith, is_same i k q),
      record { addr = addr; is_listed = refl; on_host = list_eq→eq addr.hostname host same },
    )
    | inr q ↦ one_further i (places-IsHere host (i + 1) rest k (ground (arith, h, same, q)))
  ]
  | inr other ↦ one_further i (places-IsHere host (i + 1) rest k (ground (arith, h, other)))
]

the_place-pos : (ks : List ℕ) {z : ℤ} → the_place ks ≡ ok z → (k : ℕ) × (ks ≡ k ∷ []) × (z ≡ pos k)
the_place-pos [] e = cc
the_place-pos (k ∷ []) e = (k, refl, sym (ok-injective e))
the_place-pos (k ∷ j ∷ ks) e = cc

-- Whether it comes from the --id flag or from the hostfile, the id that `main` settles on is the
-- place of a listed process whose host name is that of this host, as long as the number of
-- processes is an int.
pub determine_id-IsHere :
    (host : Text) (processes : ProcessList) (flag : Option ℤ) (z : ℤ)
    → length processes ≤ 2 ^ 31
    → determine_id host processes flag ≡ ok z
    → (k : ℕ) × (z ≡ pos k) × IsHere host processes k
unfolding determine_id
determine_id-IsHere host processes (some my_id) z small e =
    let (u, e₁, e₂) = >>=-eq-ok (check_process_id host processes my_id) _ e in
    let (k, q, here) = check_process_id-IsHere host processes my_id e₁ in
    (k, sym (ok-injective e₂) ∙ q, here)
determine_id-IsHere host processes none z small e =
    let (k, one, q) =
      the_place-pos (places host 0 processes)
        (sym (get_process_id-the_place host processes small) ∙ e) in
    let (j, same, here) = places-IsHere host 0 processes k (ground (arith, one)) in
    (j, q ∙ ap pos (omega (arith, same)), here)
