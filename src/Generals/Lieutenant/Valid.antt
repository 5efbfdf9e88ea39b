-- ===== src/Generals/Lieutenant/Valid.antt =====
-- `ValidMessage` of src/general.cc, against a description of valid messages.
use byzantine_agreement.Common.{
  ℕ, ◌+◌, ◌-◌, ◌^◌, ◌<◌, ◌≤◌, ◌≡◌, ◌≢◌, ◌↔◌, refl, ap, inl, inr, arith, Bool, true, false, not,
  ◌&&◌, List, [], ◌∷◌, none, some, ltb, leb, ◌==◌, get_elem?, get_last?, length, contains, All,
  list_eq, list_eq→eq, list_eq_self, ok, Bool-cases, dec_lt, ℕ_discrete, if◌then◌else◌, subst,
  Result, get_elem?-lt,
}
use byzantine_agreement.OrderedSet.{insert, member}
use byzantine_agreement.OrderedSet.Laws.{
  IsOrdered, insert-IsOrdered, member-insert, length-insert_new, insert_old,
}
use byzantine_agreement.OrderedSet.Vectors.{nat_order}
use byzantine_agreement.Msg.{Message}
use byzantine_agreement.Net.{Address}
use byzantine_agreement.Generals.Base.{General}
use byzantine_agreement.Generals.Validation.{scan_ids, valid_message}

-- No number stands twice in the list.
abbrev pub distinct : List ℕ → Bool
distinct [] = true
distinct (x ∷ xs) = not (contains xs x) && distinct xs

-- What a message must be: not from a later round, with one id for each round so far, the
-- commander's first, all of processes that are not ourselves, none twice, and from the host of the
-- last.
pub record IsValid (g : General) (msg : Message) (from : Address) : Type 0 where
  pub not_later : msg.round ≤ g.round
  pub one_id_each : length msg.ids ≡ msg.round + 1
  pub commander_first : get_elem? msg.ids 0 ≡ some 0
  pub others : All (λ i. (i < length g.processes) × (i ≢ g.id)) msg.ids
  pub no_id_twice : distinct msg.ids ≡ true
  pub last_id : ℕ
  pub last_is : get_last? msg.ids ≡ some last_id
  pub sender : Address
  pub sender_is : get_elem? g.processes last_id ≡ some sender
  pub from_sender : sender.hostname ≡ from.hostname

insert_all : List ℕ → List ℕ → List ℕ
insert_all [] s = s
insert_all (i ∷ is) s = insert_all is (insert i s)

abbrev others_test : ℕ → ℕ → List ℕ → Bool
others_test n me [] = true
others_test n me (i ∷ is) = not (leb n i) && (not (i == me) && others_test n me is)

others_test_iff :
    (n me : ℕ) (ids : List ℕ) → (others_test n me ids ≡ true) ↔ All (λ i. (i < n) × (i ≢ me)) ids
others_test_iff n me [] = (λ _. tt, λ _. refl)
others_test_iff n me (i ∷ is) = ground (arith, others_test_iff n me is)

scan_ids_lem :
    (n me : ℕ) (ids s : List ℕ)
    → scan_ids n me ids s ≡ (if others_test n me ids then some (insert_all ids s) else none)
unfolding scan_ids insert_all
scan_ids_lem n me [] s = refl
scan_ids_lem n me (i ∷ is) s = ground (arith, scan_ids_lem n me is (insert i s))

abbrev fresh : List ℕ → List ℕ → Bool
fresh s [] = true
fresh s (i ∷ is) = not (member i s) && (not (contains is i) && fresh s is)

fresh-insert :
    (i : ℕ) (s ids : List ℕ) → fresh (insert i s) ids ≡ (fresh s ids && not (contains ids i))
fresh-insert i s [] = refl
fresh-insert i s (j ∷ is) = ground (arith, fresh-insert i s is, member-insert j i s)

-- Inserting ids one by one makes the set larger by their number exactly when they are new and
-- distinct.
length-insert_all :
    (ids s : List ℕ)
    → IsOrdered s
    → (length (insert_all ids s) ≤ length s + length ids)
      × (ltb (length (insert_all ids s)) (length s + length ids) ≡ not (fresh s ids))
unfolding insert_all
length-insert_all [] s h = ground arith
length-insert_all (i ∷ is) s h = elim (Bool-cases (member i s)) [
  | inl old ↦ rw (insert_old i s h old) (ground (arith, length-insert_all is s h))
  | inr new ↦ ground (
    arith,
    length-insert_all is (insert i s) (insert-IsOrdered i s h),
    length-insert_new i s new,
    fresh-insert i s is,
  )
]

fresh-nil : (ids : List ℕ) → fresh [] ids ≡ distinct ids
unfolding member
fresh-nil [] = refl
fresh-nil (i ∷ is) = ground (arith, fresh-nil is)

scanned :
    (n me : ℕ) (ids : List ℕ)
    → others_test n me ids ≡ true
    → (s : List ℕ) × (scan_ids n me ids [] ≡ some s)
      × (ltb (length s) (length ids) ≡ not (distinct ids))
scanned n me ids h = (
  insert_all ids [],
  rw (scan_ids_lem n me ids [], h),
  ground (arith, length-insert_all ids [] tt, fresh-nil ids),
)

get_last?-cons : (x : ℕ) (xs : List ℕ) → (l : ℕ) × (get_last? (x ∷ xs) ≡ some l)
get_last?-cons x [] = (x, refl)
get_last?-cons x (y ∷ ys) = get_last?-cons y ys

get_last?-All {κ} : (P : ℕ → Type κ) (xs : List ℕ) {l : ℕ} → All P xs → get_last? xs ≡ some l → P l
get_last?-All P [] h e = cc
get_last?-All P (x ∷ []) {l} h e = let q : x ≡ l = cc in subst P q h.0
get_last?-All P (x ∷ y ∷ ys) h e = get_last?-All P (y ∷ ys) h.1 e

-- The answer to a question.
abbrev pub Answers {ℓ} : Result Bool → Type ℓ → Type ℓ
Answers r P = (b : Bool) × (r ≡ ok b) × ((b ≡ true) ↔ P)

-- The ids: whether those of a message with at least one are as they must be, and who sent it.
last_sender :
    (g : General) (i : ℕ) (is : List ℕ)
    → others_test (length g.processes) g.id (i ∷ is) ≡ true
    → (l : ℕ) × ((a : Address) × (get_last? (i ∷ is) ≡ some l) × (get_elem? g.processes l ≡ some a))
last_sender g i is h =
    let (l, e) = get_last?-cons i is in
    let bound : (l < length g.processes) × (l ≢ g.id) =
      get_last?-All (λ j. (j < length g.processes) × (j ≢ g.id)) (i ∷ is)
        ((others_test_iff _ g.id (i ∷ is)).0 h) e in
    let (a, e') = get_elem?-lt g.processes l bound.0 in (l, (a, e, e'))

-- What is left to ask of a message with the right number of ids.
module _ (g : General) (msg : Message) (from : Address) (in_time : msg.round ≤ g.round)
    (room : g.round < 2 ^ 32 - 1) (right : length msg.ids ≡ msg.round + 1) (i : ℕ) (is : List ℕ)
    (ids_are : msg.ids ≡ i ∷ is) where
  not_commander : i ≢ 0 → Answers (valid_message g msg from) (IsValid g msg from)
  unfolding valid_message
  not_commander q =
      (false, ground arith, (λ e. cc, λ v. absurd (ground (arith, v.commander_first))))

  not_others :
      others_test (length g.processes) g.id (i ∷ is) ≡ false
      → Answers (valid_message g msg from) (IsValid g msg from)
  unfolding valid_message
  not_others q = (
    false,
    ground (arith, scan_ids_lem (length g.processes) g.id (i ∷ is) []),
    (
      λ e. cc,
      λ v. cc ((others_test_iff (length g.processes) g.id (i ∷ is)).1 (rw ids_are at v.others)),
    ),
  )

  not_distinct :
      others_test (length g.processes) g.id (i ∷ is) ≡ true
      → distinct (i ∷ is) ≡ false
      → Answers (valid_message g msg from) (IsValid g msg from)
  unfolding valid_message
  not_distinct o q = (
    false,
    ground (arith, scanned (length g.processes) g.id (i ∷ is) o),
    (λ e. cc, λ v. absurd (ground (arith, v.no_id_twice))),
  )

  from_last :
      i ≡ 0
      → others_test (length g.processes) g.id (i ∷ is) ≡ true
      → distinct (i ∷ is) ≡ true
      → Answers (valid_message g msg from) (IsValid g msg from)
  unfolding valid_message
  from_last z o q =
      let (l, (a, e, e')) = last_sender g i is o in
      (
        list_eq a.hostname from.hostname,
        ground (arith, scanned (length g.processes) g.id (i ∷ is) o),
        (
          λ h. record {
            not_later = in_time;
            one_id_each = right;
            commander_first = rw ids_are (ap some z);
            others = rw ids_are ((others_test_iff (length g.processes) g.id (i ∷ is)).0 o);
            no_id_twice = rw ids_are q;
            last_id = l;
            last_is = rw ids_are e;
            sender = a;
            sender_is = e';
            from_sender = list_eq→eq a.hostname from.hostname h;
          },
          λ v.
              let sent : v.sender ≡ a = ground (arith, v.last_is, v.sender_is) in
              rw (← sent, v.from_sender) (list_eq_self from.hostname),
        ),
      )

  with_ids : Answers (valid_message g msg from) (IsValid g msg from)
  with_ids = elim (ℕ_discrete i 0) [
    | no q ↦ not_commander q
    | yes z ↦ elim (Bool-cases (others_test (length g.processes) g.id (i ∷ is))) [
      | inr bad ↦ not_others bad
      | inl o ↦ elim (Bool-cases (distinct (i ∷ is))) [
        | inr twice ↦ not_distinct o twice
        | inl once ↦ from_last z o once
      ]
    ]
  ]

-- In any round below 2 ^ 32 - 1, `ValidMessage` never throws, and accepts exactly the messages
-- that are not from a later round, have one id for each round so far, the commander's first, all
-- of them of listed processes other than this one and none twice, and come from the host of the
-- last.
pub valid_message-IsValid :
    (g : General) (msg : Message) (from : Address)
    → g.round < 2 ^ 32 - 1
    → Answers (valid_message g msg from) (IsValid g msg from)
unfolding valid_message
valid_message-IsValid g msg from h = elim (dec_lt g.round msg.round) [
  | yes later ↦ (false, ground arith, (λ e. cc, λ v. absurd (omega (arith, v.not_later))))
  | no in_time ↦ elim (ℕ_discrete (length msg.ids) (msg.round + 1)) [
    | no wrong ↦ (false, ground arith, (λ e. cc, λ v. absurd (wrong v.one_id_each)))
    | yes right ↦ split (omega arith) right msg.ids refl
  ]
]
  where
    split :
        msg.round ≤ g.round
        → length msg.ids ≡ msg.round + 1
        → (ids : List ℕ) → msg.ids ≡ ids
        → Answers (valid_message g msg from) (IsValid g msg from)
    split in_time right [] e = absurd (omega (arith, ap length e))
    split in_time right (i ∷ is) e = with_ids g msg from in_time h right i is e
