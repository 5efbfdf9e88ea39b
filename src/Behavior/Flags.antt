-- ===== src/Behavior/Flags.antt =====
-- `GetMaliciousBehavior` of src/main.cc, by the names that are given.
use byzantine_agreement.Common.{
  ℕ, zero, suc, ◌<◌, ◌≡◌, ◌⊎◌, refl, arith, Bool, true, false, not, ◌&&◌, ◌||◌, List, [], ◌∷◌, ◌==◌,
  list_eq, Text, codes, list_eq→eq, ltb, Bool-cases, if◌then◌else◌, ◌∙◌, ok, throw, Exception, inl,
  inr,
}
use byzantine_agreement.Behavior.{
  MaliciousBehavior, none_behavior, silent, delay_send, partial_send, wrong_order, exhibits,
  or_assign, string_to_malicious_behavior, collect_behaviors, reject_behaviors,
  get_malicious_behavior, only_lieutenant_behavior, only_commander_behavior,
}

-- The enumerators with a bit.
pub data Flag : Type 0 where
  is_silent is_delay is_partial is_wrong : Flag

abbrev pub bit : Flag → MaliciousBehavior
bit Flag.is_silent = silent
bit Flag.is_delay = delay_send
bit Flag.is_partial = partial_send
bit Flag.is_wrong = wrong_order

abbrev pub name : Flag → Text
name Flag.is_silent = codes "silent"
name Flag.is_delay = codes "delay_send"
name Flag.is_partial = codes "partial_send"
name Flag.is_wrong = codes "wrong_order"

-- Some value of --malicious names the flag.
abbrev pub named : Flag → List Text → Bool
named f [] = false
named f (t ∷ ts) = list_eq t (name f) || named f ts

-- Whether a text names some flag.
abbrev pub is_known : Text → Bool
is_known t =
    list_eq t (name Flag.is_silent)
    || (list_eq t (name Flag.is_delay)
        || (list_eq t (name Flag.is_partial) || list_eq t (name Flag.is_wrong)))

-- Every value names a flag.
abbrev pub all_known : List Text → Bool
all_known [] = true
all_known (t ∷ ts) = is_known t && all_known ts

tested : (ℕ → Bool) → ℕ → Bool
tested test zero = true
tested test (suc n) = tested test n && test n

tested-below : (test : ℕ → Bool) (n b : ℕ) → b < n → tested test n ≡ true → test b ≡ true
unfolding tested
tested-below test zero b lt done = absurd (omega arith)
tested-below test (suc n) b lt done = ground (arith, tested-below test n b)

abbrev bool_eq : Bool → Bool → Bool
bool_eq true b = b
bool_eq false b = not b

flag_eq : Flag → Flag → Bool
flag_eq f g = bit f == bit g

-- Setting a bit, for all sixteen sets of flags.
or_table : Flag → Flag → ℕ → Bool
or_table f g b =
    ltb (or_assign b (bit g)) 16
    && bool_eq (exhibits (or_assign b (bit g)) (bit f)) (exhibits b (bit f) || flag_eq f g)

or_table_holds : (f g : Flag) → tested (or_table f g) 16 ≡ true
unfolding tested or_table flag_eq exhibits or_assign
or_table_holds Flag.is_silent Flag.is_silent = refl
or_table_holds Flag.is_silent Flag.is_delay = refl
or_table_holds Flag.is_silent Flag.is_partial = refl
or_table_holds Flag.is_silent Flag.is_wrong = refl
or_table_holds Flag.is_delay Flag.is_silent = refl
or_table_holds Flag.is_delay Flag.is_delay = refl
or_table_holds Flag.is_delay Flag.is_partial = refl
or_table_holds Flag.is_delay Flag.is_wrong = refl
or_table_holds Flag.is_partial Flag.is_silent = refl
or_table_holds Flag.is_partial Flag.is_delay = refl
or_table_holds Flag.is_partial Flag.is_partial = refl
or_table_holds Flag.is_partial Flag.is_wrong = refl
or_table_holds Flag.is_wrong Flag.is_silent = refl
or_table_holds Flag.is_wrong Flag.is_delay = refl
or_table_holds Flag.is_wrong Flag.is_partial = refl
or_table_holds Flag.is_wrong Flag.is_wrong = refl

exhibits-or_assign :
    (f g : Flag) (b : ℕ)
    → b < 16
    → (or_assign b (bit g) < 16)
      × (exhibits (or_assign b (bit g)) (bit f) ≡ (exhibits b (bit f) || flag_eq f g))
unfolding or_table
exhibits-or_assign f g b h = ground (arith, tested-below (or_table f g) 16 b h (or_table_holds f g))

string_to_malicious_behavior-name : (g : Flag) → string_to_malicious_behavior (name g) ≡ ok (bit g)
unfolding string_to_malicious_behavior
string_to_malicious_behavior-name g = ground arith

name_eq : (g f : Flag) → list_eq (name g) (name f) ≡ flag_eq f g
unfolding flag_eq
name_eq g f = ground arith

is_known-name : (g : Flag) → is_known (name g) ≡ true
is_known-name g = ground arith

-- Reading one value: it names one flag and no other, or it is refused.
string_to_malicious_behavior-cases :
    (t : Text)
    → ((g : Flag) × (string_to_malicious_behavior t ≡ ok (bit g))
        × (is_known t ≡ true)
        × ((f : Flag) → list_eq t (name f) ≡ flag_eq f g))
      ⊎ ((string_to_malicious_behavior t ≡ throw Exception.invalid_argument) × (is_known t ≡ false))
unfolding string_to_malicious_behavior flag_eq
string_to_malicious_behavior-cases t = elim (Bool-cases (list_eq t (name Flag.is_silent))) [
  | inl e ↦ hit Flag.is_silent e
  | inr e₁ ↦ elim (Bool-cases (list_eq t (name Flag.is_delay))) [
    | inl e ↦ hit Flag.is_delay e
    | inr e₂ ↦ elim (Bool-cases (list_eq t (name Flag.is_partial))) [
      | inl e ↦ hit Flag.is_partial e
      | inr e₃ ↦ elim (Bool-cases (list_eq t (name Flag.is_wrong))) [
        | inl e ↦ hit Flag.is_wrong e
        | inr e₄ ↦ inr (ground arith, ground arith)
      ]
    ]
  ]
]
  where
    hit :
        (g : Flag)
        → list_eq t (name g) ≡ true
        → ((h : Flag) × (string_to_malicious_behavior t ≡ ok (bit h))
            × (is_known t ≡ true)
            × ((f : Flag) → list_eq t (name f) ≡ flag_eq f h))
          ⊎ ((string_to_malicious_behavior t ≡ throw Exception.invalid_argument)
              × (is_known t ≡ false))
    hit g e =
        let p = list_eq→eq t (name g) e in
        inl (
          g,
          rw p (string_to_malicious_behavior-name g),
          rw p (is_known-name g),
          λ f. rw p (name_eq g f),
        )

no_flags : (f : Flag) (ts : List Text) → (exhibits none_behavior (bit f) || named f ts) ≡ named f ts
unfolding exhibits
no_flags f ts = ground arith

-- What the loop collects: nothing if some value is unknown, and else the flags collected so far and
-- those that the values name.
collect_behaviors_lem :
    (ts : List Text) (b : ℕ)
    → b < 16
    → ((all_known ts ≡ true)
        × ((b' : ℕ) × (collect_behaviors b ts ≡ ok b')
            × (b' < 16)
            × ((f : Flag) → exhibits b' (bit f) ≡ (exhibits b (bit f) || named f ts))))
      ⊎ ((all_known ts ≡ false) × (collect_behaviors b ts ≡ throw Exception.invalid_argument))
unfolding collect_behaviors
collect_behaviors_lem [] b h = inl (refl, (b, refl, h, λ f. ground arith))
collect_behaviors_lem (t ∷ ts) b h = elim (string_to_malicious_behavior-cases t) [
  | inl (g, e, k, q) ↦
      elim (collect_behaviors_lem ts (or_assign b (bit g)) (exhibits-or_assign g g b h).0) [
        | inl (r, (b', e', lt, x)) ↦ inl (
          ground arith,
          (b', rw (e, e'), lt, λ f. ground (arith, x f, q f, exhibits-or_assign f g b h)),
        )
        | inr (r, e') ↦ inr (ground arith, rw (e, e'))
      ]
  | inr (e, k) ↦ inr (ground arith, rw e)
]

-- What the general may do: a commander not be silent or drop messages, a lieutenant not lie.
abbrev pub permitted : Bool → List Text → Bool
permitted true ts = not (named Flag.is_silent ts) && not (named Flag.is_partial ts)
permitted false ts = not (named Flag.is_wrong ts)

reject_behaviors_lem :
    (b : ℕ) (ts : List Text) (c : Bool)
    → ((f : Flag) → exhibits b (bit f) ≡ named f ts)
    → reject_behaviors (if c then only_lieutenant_behavior else only_commander_behavior) b
      ≡ (if permitted c ts then ok tt else throw Exception.validation_error)
unfolding reject_behaviors
reject_behaviors_lem b ts true x =
    simp (x Flag.is_silent, x Flag.is_partial) (ground (arith, x Flag.is_silent, x Flag.is_partial))
reject_behaviors_lem b ts false x = ground (arith, x Flag.is_wrong)

-- The command line gives a set of behaviours exactly when every value is known and permitted for
-- the kind of general, and is refused as invalid otherwise; the set then exhibits a behaviour
-- exactly when some value names it.
pub get_malicious_behavior_lem :
    (ts : List Text) (c : Bool)
    → ((all_known ts && permitted c ts ≡ true)
        × ((b : ℕ) × (get_malicious_behavior ts c ≡ ok b)
            × ((f : Flag) → exhibits b (bit f) ≡ named f ts)))
      ⊎ ((all_known ts && permitted c ts ≡ false)
          × (get_malicious_behavior ts c ≡ throw Exception.validation_error))
unfolding get_malicious_behavior
get_malicious_behavior_lem ts c = elim (collect_behaviors_lem ts none_behavior (omega arith)) [
  | inl (k, (b, e, lt, x)) ↦
      let y : (f : Flag) → exhibits b (bit f) ≡ named f ts = λ f. x f ∙ no_flags f ts in
      elim (Bool-cases (permitted c ts)) [
        | inl p ↦ inl (ground arith, (b, rw e (rw (reject_behaviors_lem b ts c y, p)), y))
        | inr p ↦ inr (ground arith, rw e (rw (reject_behaviors_lem b ts c y, p)))
      ]
  | inr (k, e) ↦ inr (ground arith, ground arith)
]
