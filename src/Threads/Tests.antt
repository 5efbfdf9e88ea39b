-- ===== src/Threads/Tests.antt =====
-- A group of two threads.
use byzantine_agreement.Common.{ℕ, ◌≡◌, ◌↔◌, [], none, some}
use byzantine_agreement.Threads.{ThreadGroup, add_thread, join_all, clear}
use byzantine_agreement.Threads.Joins.{AllJoined, clear-AllJoined}

abbrev two : ThreadGroup ℕ
two = add_thread (add_thread [] 1) 2

clear-AllJoined_example :
    ((clear two ≡ some []) ↔ AllJoined two)
    × ((clear two ≡ none) ↔ (¬ AllJoined two))
    × (clear (join_all two) ≡ some [])
clear-AllJoined_example = clear-AllJoined two
