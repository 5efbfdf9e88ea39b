-- ===== src/Generals/Commander/Aborts.antt =====
-- A thread of `Commander::Decide` in src/general.cc that an exception leaves.
use byzantine_agreement.Common.{
  ℕ, zero, suc, ◌+◌, ◌≡◌, refl, ap, ◌∙◌, arith, false, List, [], ◌∷◌, some, get_elem?, ok, throw,
  Exception, subst,
}
use byzantine_agreement.Msg.{Order, Message}
use byzantine_agreement.Udp.{Attempt, SendOutcome, raised, send_loop, send_with_ack}
use byzantine_agreement.Generals.Base.{General, Platform, Turn, maybe_delay_send, send_message}
use byzantine_agreement.Generals.Senders.{
  Sender, Ran, Ending, finished, waiting, terminates, after_send, send_each, run_sender,
  sender_endings, join_endings,
}
use byzantine_agreement.Generals.Commander.{Commander, launch, decide}

-- The first send of the turn fails.
pub record FailsToSend (t : Turn) : Type 0 where
  pub first : Attempt
  pub others : List Attempt
  pub are : t.attempts ≡ first ∷ others
  pub not_sent : first.sent ≡ false

send_message-raised :
    (msg : Message) (a : Attempt) (rest : List Attempt)
    → a.sent ≡ false
    → (send_message msg (a ∷ rest)).1 ≡ raised Exception.send_exception
unfolding send_message send_with_ack send_loop
send_message-raised msg a rest h = rw h refl

raised-terminates :
    (delay : ℕ) (k : List ℕ × SendOutcome) {e : Exception} (next : Ran)
    → k.1 ≡ raised e
    → (after_send delay k next).ending ≡ terminates e
unfolding after_send
raised-terminates delay (buf, o) next h = rw h refl

run_sender-terminates :
    (g : General) (s : Sender) (t : Turn)
    → FailsToSend t
    → (run_sender g s t).ending ≡ terminates Exception.send_exception
unfolding run_sender send_each
run_sender-terminates g s t h =
    raised-terminates (maybe_delay_send g t.draw) (send_message s.msg t.attempts) _ (
      ap (λ k. (send_message s.msg k).1) h.are
      ∙ send_message-raised s.msg h.first h.others h.not_sent)

join_head :
    (e : Exception) (x : Ending) (rest : List Ending)
    → x ≡ terminates e
    → join_endings (x ∷ rest) ≡ throw Exception.process_terminated
unfolding join_endings
join_head e x rest h = rw (h, join_endings) refl

join_tail :
    (x : Ending) (rest : List Ending)
    → join_endings rest ≡ throw Exception.process_terminated
    → join_endings (x ∷ rest) ≡ throw Exception.process_terminated
unfolding join_endings
join_tail finished rest h = h
join_tail waiting rest h = rw h refl
join_tail (terminates e) rest h = refl

join_senders-terminated :
    (p : Platform) (g : General) (j : ℕ) (ss : List Sender) (i : ℕ) (s : Sender)
    → get_elem? ss i ≡ some s
    → FailsToSend (p.turns g.round (j + i) 0)
    → join_endings (sender_endings p g j ss) ≡ throw Exception.process_terminated
unfolding sender_endings
join_senders-terminated p g j [] i s q h = cc
join_senders-terminated p g j (x ∷ ss) zero s q h =
    let k : FailsToSend (p.turns g.round j 0) =
      subst (λ n. FailsToSend (p.turns g.round n 0)) (omega arith) h in
    join_head Exception.send_exception (run_sender g x (p.turns g.round j 0)).ending
      (sender_endings p g (j + 1) ss) (run_sender-terminates g x (p.turns g.round j 0) k)
join_senders-terminated p g j (x ∷ ss) (suc i) s q h =
    let k : FailsToSend (p.turns g.round (j + 1 + i) 0) =
      subst (λ n. FailsToSend (p.turns g.round n 0)) (omega arith) h in
    join_tail (run_sender g x (p.turns g.round j 0)).ending (sender_endings p g (j + 1) ss)
      (join_senders-terminated p g (j + 1) ss i s q k)

-- When the first send of any one of the threads that a commander has started fails, the exception
-- leaves the thread and ends the process: the commander does not decide, whatever its other threads
-- do.
pub decide_send_fails :
    (p : Platform) (c : Commander) (o : Order) (senders : List Sender) (i : ℕ) (s : Sender)
    → launch p c ≡ ok (o, senders)
    → get_elem? senders i ≡ some s
    → FailsToSend (p.turns c.round i 0)
    → decide p c ≡ throw Exception.process_terminated
unfolding decide
decide_send_fails p c o senders i s e q h =
    let k : FailsToSend (p.turns c.round (0 + i) 0) =
      subst (λ n. FailsToSend (p.turns c.round n 0)) (omega arith) h in
    rw (e, join_senders-terminated p c.general 0 senders i s q k) refl
