-- ===== src/Threads.antt =====
-- src/thread.h: `ThreadGroup`, a list of threads that run some body. What a thread does meanwhile is
-- not seen here; only whether it is still to be joined.
pub mod Joins
mod Tests
use byzantine_agreement.Common.{
  Bool, true, false, not, List, [], ◌∷◌, ◌++◌, map, Option, none, some, if◌then◌else◌,
}

pub record Thread {ℓ} (A : Type ℓ) : Type ℓ where
  pub body : A
  pub joinable : Bool

abbrev pub ThreadGroup {ℓ} : Type ℓ → Type ℓ
ThreadGroup A = List (Thread A)

unfoldable pub add_thread {ℓ} : {A : Type ℓ} → ThreadGroup A → A → ThreadGroup A
add_thread threads f = threads ++ record { body = f; joinable = true } ∷ []

-- To destroy a thread that is joinable ends the process: `none`.
unfoldable pub destroy {ℓ} : {A : Type ℓ} → ThreadGroup A → Option (Unit {0})
destroy [] = some tt
destroy (t ∷ threads) = let rest = destroy threads in if t.joinable then none else rest

unfoldable pub clear {ℓ} : {A : Type ℓ} → ThreadGroup A → Option (ThreadGroup A)
unfolding destroy
clear threads = elim (destroy threads) [ none ↦ none | some u ↦ some [] ]

-- Every thread that is joinable is waited for, in turn.
unfoldable pub join_all {ℓ} : {A : Type ℓ} → ThreadGroup A → ThreadGroup A
join_all [] = []
join_all (t ∷ threads) =
    (if t.joinable then record t { joinable = false } else t) ∷ join_all threads
