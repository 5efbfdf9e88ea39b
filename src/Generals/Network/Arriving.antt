-- ===== src/Generals/Network/Arriving.antt =====
-- What may arrive at a lieutenant in a network, and from whom: `ByzantineMsgFromBuf` and
-- `ValidMessage` of src/general.cc.
use byzantine_agreement.Common.{
  ℕ, zero, suc, ◌+◌, ◌-◌, ◌*◌, ◌^◌, ◌<◌, ◌≤◌, ◌≡◌, ◌≢◌, refl, arith, Bool, true, List, [], ◌∷◌, All,
  All-Memᴰ, length, ok, subst, ap, take, some,
}
use mathlib.Core.List.{Memᴰ}
use byzantine_agreement.Msg.{Message}
use byzantine_agreement.Wire.{word_bytes, message_buf, byzantine_msg_from_buf}
use byzantine_agreement.Wire.RoundTrip.{
  IsWide, byzantine_msg_from_buf-message_buf, length-write_words,
}
use byzantine_agreement.Net.{Address}
use byzantine_agreement.Udp.{bufsize}
use byzantine_agreement.Generals.Base.{General, Platform}
use byzantine_agreement.Generals.Senders.{Sender}
use byzantine_agreement.Generals.Commander.Orders.{IsFirst, AllHanded}
use byzantine_agreement.Generals.Validation.{valid_message}
use byzantine_agreement.Generals.Lieutenant.Valid.{valid_message-IsValid}
use byzantine_agreement.Generals.Network.{
  Node, state, IsSent, by_commander, by_lieutenant, by_stranger,
}
use byzantine_agreement.Generals.Network.Validity.{command_fits}
use byzantine_agreement.Generals.Network.Spread.{SentTo, IsSound, IsFull, Local}

take_short {ℓ} : {A : Type ℓ} → (k : ℕ) (xs : List A) → length xs ≤ k → take k xs ≡ xs
take_short zero [] h = refl
take_short zero (x ∷ xs) h = absurd (omega (arith, h))
take_short (suc k) [] h = refl
take_short (suc k) (x ∷ xs) h = ap (λ ys. x ∷ ys) (take_short k xs (omega (arith, h)))

length-message_buf : (m : Message) → length (message_buf m) ≡ 16 + 4 * length m.ids
unfolding message_buf word_bytes
length-message_buf m = omega (arith, length-write_words m.ids)

-- The receive buffer is large enough for a message with at most 252 ids.
pub received_whole :
    (m : Message)
    → IsWide m
    → length m.ids ≤ 252
    → byzantine_msg_from_buf (take bufsize (message_buf m)) ≡ some m
received_whole m w h =
    rw (take_short bufsize (message_buf m) (omega (arith, length-message_buf m, h)))
      (byzantine_msg_from_buf-message_buf m w)

first-IsWide : (m : Message) → IsFirst m → IsWide m
first-IsWide m f = record {
  round_fits = omega (arith, f.first);
  order_fits = command_fits m.order f.command;
  ids_fit = rw f.from_commander (omega arith, tt);
}

-- The commander is no lieutenant, so that its messages need no one's word.
first-IsSound :
    (n : ℕ) (loyal : ℕ → Bool) (s : ℕ → Node) (m : Message) → IsFirst m → IsSound n loyal s m
first-IsSound n loyal s m f = record {
  fits = command_fits m.order f.command;
  honest = λ real b c z. absurd (ground (arith, f.from_commander));
}

-- A message that `ValidMessage` lets pass.
pub valid-IsFull :
    (n : ℕ) (loyal : ℕ → Bool) (g : General) (m : Message) (from : Address)
    → length g.processes ≡ n
    → g.round < 2 ^ 32 - 1
    → valid_message g m from ≡ ok true
    → IsFull n loyal g m
valid-IsFull n loyal g m from many small e =
    let (b, eb, to) = valid_message-IsValid g m from small in
    let v = to.0 (ground (arith, e, eb)) in
    record {
      not_later = v.not_later;
      one_id_each = v.one_id_each;
      commander_first = v.commander_first;
      others = subst (λ k. All (λ i. (i < k) × (i ≢ g.id)) m.ids) many v.others;
      no_id_twice = v.no_id_twice;
    }

module _ (n : ℕ) (p : ℕ → Platform) (senders : List Sender) (loyal : ℕ → Bool) (faulty : ℕ)
    (small : faulty + 2 ≤ 252) (firsts : AllHanded IsFirst senders) where
  -- Who sent the message that a buffer holds.
  pub data Origin (s : ℕ → Node) (m : Message) : Type 0 where
    of_commander : (x : Sender) → Memᴰ x senders → x.msg ≡ m → Origin s m
    of_lieutenant : (j q : ℕ) → j < n → SentTo (state (s j)).started q m → Origin s m

  pub IsSent-Origin :
      (s : ℕ → Node) (bytes : List ℕ) (m : Message)
      → ((a : ℕ) → a < n → Local n loyal s p faulty a (state (s a)))
      → IsSent n p senders s bytes
      → byzantine_msg_from_buf (take bufsize bytes) ≡ some m
      → Origin s m
  IsSent-Origin s bytes m h (by_commander x i b) e =
      let f : IsFirst x.msg = All-Memᴰ _ senders firsts i in
      let whole =
        received_whole x.msg (first-IsWide x.msg f) (omega (arith, ap length f.from_commander)) in
      of_commander x i (ground (arith, whole, b, e))
  IsSent-Origin s bytes m h (by_lieutenant j b k lt i c q) e =
      let sent : SentTo (state (s j)).started b.pid k = record {
        batch = b;
        is_started = i;
        is_for = refl;
        is_in = c;
      } in
      let (wide, short) = (h j lt).sent_wide b.pid k sent in
      let whole = received_whole k wide (omega (arith, short, small)) in
      let same : k ≡ m = ground (arith, whole, q, e) in
      of_lieutenant j b.pid lt (subst (SentTo (state (s j)).started b.pid) same sent)
  IsSent-Origin s bytes m h (by_stranger q) e = cc

  pub Origin-IsSound :
      (s : ℕ → Node) (m : Message)
      → ((a : ℕ) → a < n → Local n loyal s p faulty a (state (s a)))
      → Origin s m
      → IsSound n loyal s m
  Origin-IsSound s m h (of_commander x i e) =
      subst (IsSound n loyal s) e (first-IsSound n loyal s x.msg (All-Memᴰ _ senders firsts i))
  Origin-IsSound s m h (of_lieutenant j q lt w) = (h j lt).sent_sound q m w
