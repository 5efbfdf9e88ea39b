-- ===== src/Config/Checks.antt =====
-- What the checks of src/main.cc let pass.
use byzantine_agreement.Common.{
  ℕ, zero, suc, ◌+◌, ◌<◌, ◌≤◌, ◌≡◌, refl, sym, ap, ◌∙◌, inl, inr, arith, Bool, true, false, List,
  [], ◌∷◌, Option, none, some, get_elem?, set, length, Text, ok, throw, leb, Bool-cases,
  ok-injective, >>=-eq-ok, subst, Result, Exception,
}
use byzantine_agreement.Common.Int.{ℤ, pos, negsuc}
use byzantine_agreement.Net.{Address}
use byzantine_agreement.Msg.{Order, string_to_order}
use byzantine_agreement.Behavior.{rethrow}
use byzantine_agreement.Generals.Base.{ProcessList, at_or_throw}
use byzantine_agreement.Config.{
  swap_first, process_at, required, validate_commander_id, validate_faulty_count, validate_order,
}
use byzantine_agreement.Config.Places.{swapped, validate_commander_id-swapped}

pub required-some : {A : Type 0} (o : Option A) {a : A} → required o ≡ ok a → o ≡ some a
required-some none e = cc
required-some (some b) e = ap some (ok-injective e)

length-set : {A : Type 0} (xs : List A) (i : ℕ) (v : A) → length (set xs i v) ≡ length xs
length-set [] i v = refl
length-set (x ∷ xs) zero v = refl
length-set (x ∷ xs) (suc i) v = ap suc (length-set xs i v)

length-swap_first : (k : ℕ) (ps : ProcessList) → length (swap_first k ps) ≡ length ps
unfolding swap_first
length-swap_first zero ps = refl
length-swap_first (suc k) [] = refl
length-swap_first (suc k) (a ∷ rest) = ground (arith, length-set rest k a)

pub validate_commander_id-listed :
    (listed after : ProcessList) (z : ℤ)
    → validate_commander_id listed z ≡ ok after
    → (k : ℕ) × (z ≡ pos k)
      × (k < length listed)
      × (length after ≡ length listed)
      × ((j : ℕ) → get_elem? after j ≡ get_elem? listed (swapped k j))
unfolding validate_commander_id
validate_commander_id-listed listed after (negsuc n) e = cc
validate_commander_id-listed listed after (pos k) e = elim (Bool-cases (leb (length listed) k)) [
  | inl h ↦ cc (rw (h, validate_commander_id) at e)
  | inr h ↦
      let lt : k < length listed = ground arith in
      let (after', e', w) = validate_commander_id-swapped listed k lt in
      let same : after' ≡ after = ok-injective (sym e' ∙ e) in
      let swap : swap_first k listed ≡ after = ok-injective (rw (h, validate_commander_id) at e) in
      (
        k,
        refl,
        lt,
        rw (sym swap) (length-swap_first k listed),
        λ j. subst (λ t. get_elem? t j ≡ get_elem? listed (swapped k j)) same (w j),
      )
]

pub validate_faulty_count-enough :
    (ps : ProcessList) (z : ℤ) {u : Unit {0}}
    → validate_faulty_count ps z ≡ ok u
    → (f : ℕ) × (z ≡ pos f) × (f + 2 ≤ length ps)
unfolding validate_faulty_count
validate_faulty_count-enough ps (negsuc n) e = cc
validate_faulty_count-enough ps (pos f) e = (f, refl, ground (arith, e))

rethrow-ok : {A : Type 0} (e : Exception) (r : Result A) {a : A} → rethrow e r ≡ ok a → r ≡ ok a
rethrow-ok e (ok a) h = h
rethrow-ok e (throw Exception.invalid_argument) h = cc
rethrow-ok e (throw x) h = absurd (cc)

-- Just a commander is given an order.
pub data Given (flag : Option Text) : Bool → Option Order → Type 0 where
  given :
      (text : Text) (o : Order)
      → flag ≡ some text
      → string_to_order text ≡ ok o
      → Given flag true (some o)
  not_given : flag ≡ none → Given flag false none

pub validate_order-Given :
    (flag : Option Text) (o : Option Order) (is_commander : Bool)
    → validate_order flag is_commander ≡ ok o
    → Given flag is_commander o
unfolding validate_order
validate_order-Given none o true e = cc
validate_order-Given (some text) o true e =
    let (order, e₁, e₂) =
      >>=-eq-ok (rethrow Exception.validation_error (string_to_order text)) _ e in
    subst (Given (some text) true) (ok-injective e₂)
      (given text order refl (rethrow-ok Exception.validation_error (string_to_order text) e₁))
validate_order-Given (some text) o false e = cc
validate_order-Given none o false e = subst (Given none false) (ok-injective e) (not_given refl)

pub process_at-place :
    (ps : ProcessList) (k : ℕ) (me : ℕ × Address) → process_at ps (pos k) ≡ ok me → me.0 ≡ k
process_at-place ps k me e =
    let (a, e₁, e₂) = >>=-eq-ok (at_or_throw (get_elem? ps k)) _ e in
    sym (ap (λ (t : ℕ × Address). t.0) (ok-injective e₂))
