-- ===== src/Threads/Joins.antt =====
-- Joining and clearing the threads of a group: src/thread.h.
use byzantine_agreement.Common.{
  ◌≡◌, ◌↔◌, refl, inl, inr, arith, false, [], ◌∷◌, All, none, some, Bool-cases,
}
use byzantine_agreement.Threads.{Thread, ThreadGroup, clear, destroy, join_all}

abbrev pub AllJoined {ℓ} : {A : Type ℓ} → ThreadGroup A → Type 0
AllJoined {A} = All (λ (t : Thread A). t.joinable ≡ false)

clear_joined {ℓ} :
    {A : Type ℓ} (threads : ThreadGroup A) → AllJoined threads → clear threads ≡ some []
unfolding clear destroy
clear_joined [] h = refl
clear_joined (t ∷ threads) h = ground (arith, clear_joined threads h.1, h.0)

joined_clear {ℓ} :
    {A : Type ℓ} (threads : ThreadGroup A) → clear threads ≡ some [] → AllJoined threads
unfolding clear destroy
joined_clear [] e = tt
joined_clear (t ∷ threads) e = ground (arith, joined_clear threads)

join_all-AllJoined {ℓ} : {A : Type ℓ} (threads : ThreadGroup A) → AllJoined (join_all threads)
unfolding join_all
join_all-AllJoined [] = tt
join_all-AllJoined (t ∷ threads) = ground (arith, join_all-AllJoined threads)

clear_not_joined {ℓ} :
    {A : Type ℓ} (threads : ThreadGroup A) → ¬ AllJoined threads → clear threads ≡ none
unfolding clear destroy
clear_not_joined [] h = absurd (h tt)
clear_not_joined (t ∷ threads) h = elim (Bool-cases t.joinable) [
  | inl j ↦ rw j refl
  | inr j ↦ let ih = clear_not_joined threads (λ k. h (j, k)) in ground (arith, j, ih)
]

not_joined_clear {ℓ} :
    {A : Type ℓ} (threads : ThreadGroup A) → clear threads ≡ none → ¬ AllJoined threads
not_joined_clear threads e h = let c = clear_joined threads h in cc

-- To clear a group of threads leaves no thread exactly when none of it is still to be joined, and so
-- always after `JoinAll`; and it ends the process exactly when one is still to be joined.
pub clear-AllJoined {ℓ} :
    {A : Type ℓ} (threads : ThreadGroup A)
    → ((clear threads ≡ some []) ↔ AllJoined threads)
      × ((clear threads ≡ none) ↔ (¬ AllJoined threads))
      × (clear (join_all threads) ≡ some [])
clear-AllJoined threads = (
  (joined_clear threads, clear_joined threads),
  (not_joined_clear threads, clear_not_joined threads),
  clear_joined (join_all threads) (join_all-AllJoined threads),
)
