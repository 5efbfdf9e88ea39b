-- ===== src/Udp/Send.antt =====
-- `SendWithAck` of src/udp_conn.cc, by the replies that come.
use byzantine_agreement.Common.{
  ℕ, zero, suc, ◌+◌, ◌-◌, ◌%◌, ◌^◌, ◌<◌, ◌≡◌, ◌≢◌, refl, arith, true, false, List, [], ◌∷◌,
  if◌then◌else◌, take, Exception,
}
use byzantine_agreement.Udp.{
  ServerAction, continue, stop, is_errno_timeout, Reply, got, failed, Attempt, SendOutcome, acked,
  exhausted, blocked, raised, after_reply, send_loop, send_with_ack, bufsize,
}

-- How one attempt turns out, by itself.
pub data Verdict : Type 0 where
  again done : Verdict
  broken : Exception → Verdict

abbrev pub judge_action : ServerAction → Verdict
judge_action continue = again
judge_action stop = done

abbrev pub judge_reply : (List ℕ → ServerAction) → Reply → Verdict
judge_reply valid (got buf) = judge_action (valid (take bufsize buf))
judge_reply valid (failed e) =
    if is_errno_timeout e then again else broken Exception.receive_exception

abbrev pub judge : (List ℕ → ServerAction) → Attempt → Verdict
judge valid a = if a.sent then judge_reply valid a.reply else broken Exception.send_exception

-- The specification: the first `n` attempts are judged in turn, until one decides.
abbrev pub verdict_of : ℕ → (List ℕ → ServerAction) → List Attempt → SendOutcome
verdict_of zero valid env = exhausted
verdict_of (suc n) valid [] = blocked
verdict_of (suc n) valid (a ∷ env) =
    let next = verdict_of n valid env in
    elim (judge valid a) [ again ↦ next | done ↦ acked | broken e ↦ raised e ]

send_loop-verdict_of :
    (n : ℕ) (valid : List ℕ → ServerAction) (env : List Attempt)
    → n < 2 ^ 32
    → send_loop false n valid env ≡ verdict_of n valid env
unfolding send_loop after_reply
send_loop-verdict_of zero valid [] h = refl
send_loop-verdict_of zero valid (a ∷ env) h = refl
send_loop-verdict_of (suc n) valid [] h = ground arith
send_loop-verdict_of (suc n) valid (a ∷ env) h =
    let counter : (suc n + 2 ^ 32 - 1) % 2 ^ 32 ≡ n = omega arith in
    rw counter (ground (arith, send_loop-verdict_of n valid env))

-- With a limit of n attempts, 0 < n < 2 ^ 32, `SendWithAck` judges at most n attempts one by
-- one, each a send and a reply: it goes on after a timeout or an acknowledgement that is not
-- valid, stops at one that is, throws if a send or a receive fails otherwise, and gives up when
-- the limit is reached.
pub send_with_ack-verdict_of :
    (n : ℕ) (valid : List ℕ → ServerAction) (env : List Attempt)
    → 0 < n
    → n < 2 ^ 32
    → send_with_ack n valid env ≡ verdict_of n valid env
unfolding send_with_ack
send_with_ack-verdict_of n valid env h k = ground (arith, send_loop-verdict_of n valid env)

send_loop_unlimited :
    (n : ℕ) (valid : List ℕ → ServerAction) (env : List Attempt)
    → send_loop true n valid env ≢ exhausted
unfolding send_loop after_reply
send_loop_unlimited n valid [] e = cc
send_loop_unlimited n valid (a ∷ env) e =
    ground (arith, send_loop_unlimited ((n + 2 ^ 32 - 1) % 2 ^ 32) valid env)

-- Without a limit on the attempts (0), `SendWithAck` never gives up, whatever comes back.
pub send_with_ack_unlimited :
    (valid : List ℕ → ServerAction) (env : List Attempt) → send_with_ack 0 valid env ≢ exhausted
unfolding send_with_ack
send_with_ack_unlimited valid env = send_loop_unlimited 0 valid env
