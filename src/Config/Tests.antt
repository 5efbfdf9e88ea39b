-- ===== src/Config/Tests.antt =====
-- The configuration of a process at concrete inputs.
use byzantine_agreement.Common.{◌≡◌, refl, arith, none, codes, ok}
use byzantine_agreement.Common.Int.{pos}
use byzantine_agreement.Generals.Scenario.{processes}
use byzantine_agreement.Config.{get_process_id, determine_id}
use byzantine_agreement.Config.Places.{get_process_id-the_place}

get_process_id-the_place_example : get_process_id (codes "b") processes ≡ ok (pos 1)
get_process_id-the_place_example = get_process_id-the_place (codes "b") processes (omega arith)

settles : determine_id (codes "b") processes none ≡ ok (pos 1)
unfolding determine_id
settles = refl
