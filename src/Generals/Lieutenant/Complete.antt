-- ===== src/Generals/Lieutenant/Complete.antt =====
-- The end of a round, where `Lieutenant::Decide` of src/general.cc compares the number of lists of
-- ids with `MessagesForRound`, against the lists that a message of the round can have.
use byzantine_agreement.Common.{
  ℕ, ◌^◌, ◌<◌, ◌≡◌, ◌≢◌, ◌↔◌, ◌∙◌, sym, inl, inr, arith, true, List, [], length,
}
use byzantine_agreement.OrderedSet.{insert, member}
use byzantine_agreement.OrderedSet.Laws.{IsOrdered, insert-IsOrdered}
use byzantine_agreement.OrderedSet.Members.{member-insert_cases}
use byzantine_agreement.OrderedSet.Subsets.{subset_whole}
use byzantine_agreement.OrderedSet.Same.{same_elements}
use byzantine_agreement.OrderedSet.Vectors.{list_order}
use byzantine_agreement.Generals.Count.{messages_for_round, falling, messages_for_round-falling}
use byzantine_agreement.Generals.Lieutenant.{Lieutenant, round_complete}
use byzantine_agreement.Generals.Paths.{all_paths, IsPath}
use byzantine_agreement.Generals.Paths.Counted.{length-all_paths}
use byzantine_agreement.Generals.Paths.Members.{member-all_paths}
use byzantine_agreement.Generals.Paths.Order.{all_paths-IsOrdered}

-- What a lieutenant lists are ids that a message of its round can have.
pub record ListsPaths (l : Lieutenant) : Type 0 where
  pub ordered : IsOrdered l.ids_this_round
  pub paths :
      (ids : List ℕ)
      → member ids l.ids_this_round ≡ true
      → IsPath (length l.processes) l.id l.round ids

pub same-ListsPaths :
    (l l' : Lieutenant)
    → l'.general ≡ l.general
    → l'.ids_this_round ≡ l.ids_this_round
    → ListsPaths l
    → ListsPaths l'
same-ListsPaths l l' g k h = record {
  ordered = rw k h.ordered;
  paths = λ ids m. rw g (h.paths ids (rw k at m));
}

pub insert-ListsPaths :
    (l l' : Lieutenant) (ids : List ℕ)
    → l'.general ≡ l.general
    → l'.ids_this_round ≡ insert ids l.ids_this_round
    → IsPath (length l.processes) l.id l.round ids
    → ListsPaths l
    → ListsPaths l'
insert-ListsPaths l l' ids g k v h = record {
  ordered = rw k (insert-IsOrdered ids l.ids_this_round h.ordered);
  paths = λ ids' m. elim (member-insert_cases ids' ids l.ids_this_round (rw k at m)) [
    | inl e ↦ rw (g, e) v
    | inr i ↦ rw g (h.paths ids' i)
  ];
}

pub none-ListsPaths : (l : Lieutenant) → l.ids_this_round ≡ [] → ListsPaths l
unfolding member
none-ListsPaths l k = record { ordered = rw k tt; paths = λ ids m. cc (rw k at m) }

-- With all its lists of ids those of messages of the round, a lieutenant takes the round for complete
-- exactly when it lists all that a message of the round can have.
pub round_complete-paths :
    (l : Lieutenant)
    → ListsPaths l
    → l.id ≢ 0
    → l.id < length l.processes
    → l.round < length l.processes
    → length l.processes < 2 ^ 64
    → falling (length l.processes) l.round < 2 ^ 64
    → (round_complete l ≡ true) ↔ (
        (ids : List ℕ)
        → IsPath (length l.processes) l.id l.round ids
        → member ids l.ids_this_round ≡ true)
unfolding round_complete
round_complete-paths l h z i r k f =
    let n = length l.processes in
    let all = all_paths n l.id l.round in
    let count : messages_for_round n l.round ≡ length all =
      messages_for_round-falling n l.round r k f ∙ sym (length-all_paths n l.id l.round z i) in
    let in_all : (ids : List ℕ) → (member ids all ≡ true) ↔ IsPath n l.id l.round ids =
      λ ids. member-all_paths n l.id l.round ids (omega (arith, i)) z in
    (
      λ e.
          let same : l.ids_this_round ≡ all =
            subset_whole l.ids_this_round all h.ordered (all_paths-IsOrdered n l.id l.round)
              (λ ids m. (in_all ids).1 (h.paths ids m)) (ground (arith, e, count)) in
          λ ids v. rw same ((in_all ids).1 v),
      λ every.
          let same : l.ids_this_round ≡ all =
            same_elements l.ids_this_round all h.ordered (all_paths-IsOrdered n l.id l.round)
              (λ ids m. (in_all ids).1 (h.paths ids m)) (λ ids m. every ids ((in_all ids).0 m)) in
          ground (arith, same, count),
    )
