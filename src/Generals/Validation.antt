-- ===== src/Generals/Validation.antt =====
-- Which messages a lieutenant takes: `ValidMessage` of src/general.cc.
use byzantine_agreement.Common.{
  ℕ, ◌+◌, ◌%◌, ◌^◌, Bool, false, not, List, [], ◌∷◌, Option, none, some, ltb, leb, ◌==◌,
  if◌then◌else◌, get_elem?, get_last?, length, list_eq, Result, ok, ◌>>=◌,
}
use byzantine_agreement.OrderedSet.{insert, size}
use byzantine_agreement.OrderedSet.Vectors.{nat_order, list_order}
use byzantine_agreement.Msg.{Message}
use byzantine_agreement.Msg.Less.{order_order, message_order}
use byzantine_agreement.Net.{Address}
use byzantine_agreement.Generals.Base.{General, at_or_throw}

-- The loop of `ValidMessage` over the ids: the set of them, or `none` where one is out of bounds
-- or our own.
unfoldable pub scan_ids : ℕ → ℕ → List ℕ → List ℕ → Option (List ℕ)
unfolding insert
scan_ids process_num me [] idset = some idset
scan_ids process_num me (id ∷ ids) idset =
    let rest = scan_ids process_num me ids (insert id idset) in
    if leb process_num id then none else if id == me then none else rest

unfoldable pub valid_message : General → Message → Address → Result Bool
unfolding scan_ids
valid_message g msg from =
    if ltb g.round msg.round
    then ok false
    else if not ((msg.round + 1) % 2 ^ 32 == length msg.ids)
    then ok false
    else do
      first ← at_or_throw (get_elem? msg.ids 0)
      if not (first == 0) then ok false else elim (scan_ids (length g.processes) g.id msg.ids []) [
        | none ↦ ok false
        | some idset ↦ if ltb (size idset) (length msg.ids) then ok false else do
          last ← at_or_throw (get_last? msg.ids)
          addr ← at_or_throw (get_elem? g.processes last)
          ok (list_eq addr.hostname from.hostname)
      ]
