-- ===== src/Generals/Commander/Sends.antt =====
-- What a commander sends: `Commander::Decide` of src/general.cc.
use byzantine_agreement.Common.{◌≡◌, refl, false, List, [], ◌∷◌, ◌>>=◌, ok}
use byzantine_agreement.Msg.{Order, Message}
use byzantine_agreement.Behavior.{silent, partial_send, wrong_order}
use byzantine_agreement.Udp.{Kernel, new_client}
use byzantine_agreement.Generals.Base.{Platform, ProcessList, ack_timeout, exhibits_behavior}
use byzantine_agreement.Generals.Commander.{Commander, launch, decide}
use byzantine_agreement.Generals.Senders.{Sender, sender_endings, join_endings}

-- A commander that sends every message as it is, and logs none.
pub record IsLoyal (p : Platform) (c : Commander) : Type 0 where
  pub not_silent : exhibits_behavior c.general silent ≡ false
  pub not_partial : exhibits_behavior c.general partial_send ≡ false
  pub not_wrong : exhibits_behavior c.general wrong_order ≡ false
  pub not_verbose : p.verbose ≡ false

-- The message for every lieutenant.
abbrev pub order_message : Commander → Message
order_message c = record { round = c.round; order = c.order; ids = 0 ∷ [] }

-- One sender for each of the processes, in order: it has the client that was made for the address of
-- the process, and the message.
abbrev pub Addressed : Kernel → Message → ProcessList → List Sender → Type 0
Addressed k m [] [] = Unit
Addressed k m [] (s ∷ ss) = ⊥
Addressed k m (a ∷ rest) [] = ⊥
Addressed k m (a ∷ rest) (s ∷ ss) =
    (new_client k a ack_timeout ≡ ok s.client) × (s.msg ≡ m) × Addressed k m rest ss

pub decide-launch :
    (p : Platform) (c : Commander) (o : Order) (ss : List Sender)
    → launch p c ≡ ok (o, ss)
    → decide p c ≡ (join_endings (sender_endings p c.general 0 ss) >>= λ _. ok o)
unfolding decide
decide-launch p c o ss e = rw e refl
