-- ===== src/Generals/Senders/Joined.antt =====
-- The threads that `JoinAll` waits for in src/general.cc, when their messages are sent and answered.
use byzantine_agreement.Common.{ℕ, suc, ◌+◌, ◌≡◌, refl, ap, List, [], ◌∷◌, All, length, ok}
use byzantine_agreement.Msg.{Message}
use byzantine_agreement.Udp.{Client}
use byzantine_agreement.Generals.Base.{General, Platform, Turn, client_for_id}
use byzantine_agreement.Generals.Forward.{Batch}
use byzantine_agreement.Generals.Senders.{
  Sender, Ending, finished, run_batch, run_sender, turns_for, batch_endings, sender_endings,
  join_endings,
}
use byzantine_agreement.Generals.Senders.Sent.{IsAnswered, send_each-answered, run_batch-answered}

-- Every send of the threads of a process succeeds, and each is met by a timeout or by an
-- acknowledgement.
abbrev pub AllAnswered : Platform → Type 0
AllAnswered p = (r i j : ℕ) → IsAnswered (p.turns r i j)

abbrev pub HasClient : General → ℕ → Type 0
HasClient g pid = (client : Client) × (client_for_id g pid ≡ ok client)

turns_for-length :
    (turns : ℕ → Turn) (j : ℕ) (msgs : List Message) → length (turns_for turns j msgs) ≡ length msgs
unfolding turns_for
turns_for-length turns j [] = refl
turns_for-length turns j (m ∷ ms) = ap suc (turns_for-length turns (j + 1) ms)

turns_for-IsAnswered :
    (turns : ℕ → Turn) (j : ℕ) (msgs : List Message)
    → ((k : ℕ) → IsAnswered (turns k))
    → All IsAnswered (turns_for turns j msgs)
unfolding turns_for
turns_for-IsAnswered turns j [] h = tt
turns_for-IsAnswered turns j (m ∷ ms) h = (h j, turns_for-IsAnswered turns (j + 1) ms h)

join_finished :
    (e : Ending) (rest : List Ending)
    → e ≡ finished
    → join_endings rest ≡ ok tt
    → join_endings (e ∷ rest) ≡ ok tt
unfolding join_endings
join_finished e rest q h = rw (q, join_endings) h

-- Then the threads of batches for processes that have a client can all be joined.
pub batch_endings-joined :
    (p : Platform) (g : General) (i : ℕ) (bs : List Batch)
    → AllAnswered p
    → All (λ (b : Batch). HasClient g b.pid) bs
    → join_endings (batch_endings p g i bs) ≡ ok tt
unfolding batch_endings join_endings
batch_endings-joined p g i [] h c = refl
batch_endings-joined p g i (b ∷ bs) h c =
    let turns = turns_for (p.turns g.round i) 0 b.msgs in
    join_finished (run_batch g b turns).ending (batch_endings p g (i + 1) bs)
      (run_batch-answered g b turns c.0.0 c.0.1 (turns_for-length (p.turns g.round i) 0 b.msgs)
        (turns_for-IsAnswered (p.turns g.round i) 0 b.msgs (h g.round i))).1
      (batch_endings-joined p g (i + 1) bs h c.1)

-- And so can the threads of a commander, which have their clients.
pub sender_endings-joined :
    (p : Platform) (g : General) (i : ℕ) (ss : List Sender)
    → AllAnswered p
    → join_endings (sender_endings p g i ss) ≡ ok tt
unfolding sender_endings join_endings run_sender
sender_endings-joined p g i [] h = refl
sender_endings-joined p g i (s ∷ ss) h =
    join_finished (run_sender g s (p.turns g.round i 0)).ending (sender_endings p g (i + 1) ss)
      (send_each-answered g (s.msg ∷ []) (p.turns g.round i 0 ∷ []) refl (h g.round i 0, tt)).1
      (sender_endings-joined p g (i + 1) ss h)
