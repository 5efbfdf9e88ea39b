-- ===== src/Generals/Lieutenant/Joining.antt =====
-- The threads of a lieutenant that `ClearSenders` of src/general.cc joins: each of them has a client.
use byzantine_agreement.Common.{
  ℕ, ◌<◌, ◌≡◌, refl, sym, ap, arith, Bool, List, [], ◌∷◌, length, ok, subst, get_elem?-lt,
  >>=-eq-ok, ok-injective,
}
use byzantine_agreement.Msg.{Message}
use byzantine_agreement.Msg.Less.{message_order}
use byzantine_agreement.OrderedSet.Vectors.{list_order}
use byzantine_agreement.Behavior.{MaliciousBehavior}
use byzantine_agreement.Udp.{Client, Kernel, SocketCalls, Arrival, ServerAction, new_server}
use byzantine_agreement.Generals.Base.{
  General, Platform, ProcessList, client_for_id, increment_round, new_general, round_timeout,
}
use byzantine_agreement.Generals.Clients.{new_general-client_for_id}
use byzantine_agreement.Generals.Forward.{Batch}
use byzantine_agreement.Generals.Forward.Targets.{AllFor, forward_all-AllFor}
use byzantine_agreement.Generals.Senders.Joined.{AllAnswered, HasClient, batch_endings-joined}
use byzantine_agreement.Generals.Made.{new_lieutenant-HasFields}
use byzantine_agreement.Generals.Lieutenant.{
  Lieutenant, Readings, init_new_round, join_senders, new_lieutenant, start_round, take_first,
  take_later, take_message, without_senders,
}
use byzantine_agreement.Generals.Lieutenant.Changes.{Change, stays, ends, renews, acked}
use byzantine_agreement.Generals.Lieutenant.Rounds.{forward_all-Kept, init_new_round_inv}
use byzantine_agreement.Generals.Lieutenant.Served.{Served, only_changes, takes}

-- Every process has a client, and every thread sends to a process.
pub record CanJoin (l : Lieutenant) : Type 0 where
  pub clients : (q : ℕ) → q < length l.processes → HasClient l.general q
  pub targets : AllFor (λ q. q < length l.processes) l.sender_threads

each_HasClient :
    (g : General) (bs : List Batch)
    → ((q : ℕ) → q < length g.processes → HasClient g q)
    → AllFor (λ q. q < length g.processes) bs
    → AllFor (HasClient g) bs
each_HasClient g [] h t = tt
each_HasClient g (b ∷ bs) h t = (h b.pid t.0, each_HasClient g bs h t.1)

-- If every send succeeds and is met by a timeout or an acknowledgement, the threads can be joined.
pub join_senders-CanJoin :
    (p : Platform) (l : Lieutenant) → AllAnswered p → CanJoin l → join_senders p l ≡ ok tt
unfolding join_senders
join_senders-CanJoin p l h c =
    batch_endings-joined p l.general 0 l.sender_threads h
      (each_HasClient l.general l.sender_threads c.clients c.targets)

same_client :
    (g g' : General) (q : ℕ)
    → g'.processes ≡ g.processes
    → g'.clients ≡ g.clients
    → HasClient g q
    → HasClient g' q
unfolding client_for_id
same_client g g' q e c h = (h.0, rw (e, c) h.1)

-- What the fields that it reads keep.
pub same-CanJoin :
    (l l' : Lieutenant)
    → l'.general ≡ l.general
    → l'.sender_threads ≡ l.sender_threads
    → CanJoin l
    → CanJoin l'
same-CanJoin l l' g s h = record { clients = rw g h.clients; targets = rw (g, s) h.targets }

pub init_new_round-CanJoin :
    (p : Platform) (l l' : Lieutenant) (x : Readings)
    → init_new_round p l x ≡ ok l'
    → CanJoin l
    → CanJoin l'
unfolding start_round without_senders increment_round
init_new_round-CanJoin p l l' x e h =
    let (st, e₁, e₂) = init_new_round_inv p l l' x e in
    let k = forward_all-Kept p l.msgs_this_round _ st e₁ in
    let to : AllFor (λ q. q < length l.processes) st.1 =
      forward_all-AllFor (λ q. q < length l.processes) p (length l.processes) l.msgs_this_round _ st
        refl (λ q lt. lt) tt e₁ in
    subst CanJoin e₂ (record {
      clients = λ q lt.
          same_client l.general st.0 q k.processes k.clients
            (h.clients q (subst (λ ps. q < length ps) k.processes lt));
      targets = subst (λ ps. AllFor (λ q. q < length ps) st.1) (sym k.processes) to;
    })

Change-CanJoin :
    (p : Platform) (l : Lieutenant) (x : Readings) {r : Lieutenant × ServerAction}
    → Change p l x r
    → CanJoin l
    → CanJoin r.0
unfolding without_senders
Change-CanJoin p l x (stays e) h = rw e h
Change-CanJoin p l x (ends a last e) h = rw e (record { clients = h.clients; targets = tt })
Change-CanJoin p l x (renews l' last e₁ e) h = rw e (init_new_round-CanJoin p l l' x e₁ h)

taken_same :
    (l : Lieutenant) (client : Client) (m : Message)
    → ((take_message (acked l client) m).0.general ≡ l.general)
      × ((take_message (acked l client) m).0.sender_threads ≡ l.sender_threads)
unfolding take_message take_first take_later acked
taken_same l client m = ground arith

pub take_message-CanJoin :
    (l : Lieutenant) (client : Client) (m : Message)
    → CanJoin l
    → CanJoin (take_message (acked l client) m).0
take_message-CanJoin l client m h =
    let (g, s) = taken_same l client m in same-CanJoin l (take_message (acked l client) m).0 g s h

pub Served-CanJoin :
    (p : Platform) (l : Lieutenant) (y : Arrival Readings) {r : Lieutenant × ServerAction}
    → Served p l y r
    → CanJoin l
    → CanJoin r.0
Served-CanJoin p l y (only_changes x c) h = Change-CanJoin p l x c h
Served-CanJoin p l y (takes d x client m from same q v a) h =
    Change-CanJoin p _ x a.changed (take_message-CanJoin l client m h)

new_lieutenant-general :
    (k : Kernel) (ps : ProcessList) (id : ℕ) (calls : SocketCalls) (bound : Bool) (faulty : ℕ)
    (b : MaliciousBehavior) (l : Lieutenant)
    → new_lieutenant k ps id calls bound faulty b ≡ ok l
    → (new_general k ps id faulty b ≡ ok l.general) × (l.sender_threads ≡ [])
unfolding new_lieutenant
new_lieutenant-general k ps id calls bound faulty b l e =
    let (g, e₁, e₂) = >>=-eq-ok (new_general k ps id faulty b) _ e in
    let (s, e₃, e₄) = >>=-eq-ok (new_server calls bound round_timeout) _ e₂ in
    subst
      (λ (m : Lieutenant). (new_general k ps id faulty b ≡ ok m.general) × (m.sender_threads ≡ []))
      (ok-injective e₄) (e₁, refl)

-- The constructor has made a client for every process.
pub new_lieutenant-CanJoin :
    (k : Kernel) (ps : ProcessList) (id : ℕ) (calls : SocketCalls) (bound : Bool) (faulty : ℕ)
    (b : MaliciousBehavior) (l : Lieutenant)
    → new_lieutenant k ps id calls bound faulty b ≡ ok l
    → CanJoin l
new_lieutenant-CanJoin k ps id calls bound faulty b l e =
    let (made, none) = new_lieutenant-general k ps id calls bound faulty b l e in
    let (g, z) = new_lieutenant-HasFields k ps id calls bound faulty b l e in
    record {
      clients = λ q lt.
          let (a, i) = get_elem?-lt ps q (omega (arith, ap length g.same_processes)) in
          let (c, e', _) = new_general-client_for_id k ps id faulty b l.general q a made i in
          (c, e');
      targets = rw none tt;
    }
