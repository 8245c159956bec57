-- ===== src/Network/HttpMessage/Failed.antt =====
-- What is noted of failures stays noted.
use myblob.Base.{
  ℕ, zero, suc, ◌+◌, ◌≡◌, Bool, true, false, ◌&&◌, Option, none, some, arith, ltb, leb, length,
  if_lem, Result, ok, err,
}
use mathlib.Core.Path.{subst}
use myblob.Base.Text.{Bytes}
use myblob.Utils.DataVector.{NotOwned, owned, reserve, resize}
use myblob.Network.HttpResponse.{check_success}
use myblob.Network.HttpHelper.{Info}
use myblob.Network.HttpHelper
use myblob.Network.Connection.{Connection}
use myblob.Network.ConnectionManager.{Manager}
use myblob.Network.HttpMessage.Task.{
  MessageState, Failures, Length, bytes, in_progress, try_again, canceled, interrupted, other_error,
  Request, Task, none_failed, Env, Outcome, continues, returns, throws, on_ok, success,
  failures_max, connection_failures_max, forget_fd,
}
use myblob.Network.HttpMessage.Sending.{
  Resigned, Reset, is_reset, reset_throws, lost_message, after_reset, restart, reset, fail,
  start_receiving, submit_send, sent, send_failed, send_timeout, send_stage, connect_stage,
  connect_result, refuse,
}
use myblob.Network.HttpMessage.Receiving.{
  submit_recv, receive_more, grow, grow_for, complete, examine, judge, recv_failed, receive_stage,
}
use myblob.Network.HttpMessage.Resets.{Leaves, reset-Leaves}
use myblob.Network.HttpMessage.Loop.{with_request, and_then, round, execute}

-- `P` holds of the task that an outcome carries.
abbrev pub Carries : (Task → Type 0) → Outcome → Type 0
Carries P (continues t m) = P t
Carries P (returns t m) = P t
Carries P throws = Unit

abbrev Marked : Task → Type 0
Marked t = none_failed t.failure_code ≡ false

-- What each step of the machine keeps, which sets no state to `finished` but in `complete`, is
-- kept by all of it.
pub on_ok-Carries :
    {A : Type 0} (P : Task → Type 0) (r : Result NotOwned A) (f : A → Outcome)
    → ((a : A) → Carries P (f a))
    → Carries P (on_ok r f)
on_ok-Carries P (ok a) f h = h a
on_ok-Carries P (err e) f h = tt

submit_send-Marked :
    (fd : Option ℕ) (t : Task) (m : Manager) → Marked t → Carries Marked (submit_send fd t m)
unfolding submit_send
submit_send-Marked fd t m h = h

sent-Marked : (fd : Option ℕ) (t : Task) (m : Manager) → Marked t → Carries Marked (sent fd t m)
unfolding sent start_receiving
sent-Marked fd t m h =
    if_lem (Carries Marked) (leb (length t.message + t.put_length) t.send_buffer_offset) h
      (submit_send-Marked fd t m h)

set_marked :
    (f : Failures)
    → none_failed f ≡ false
    → (none_failed (record f { send = true }) ≡ false)
      × (none_failed (record f { recv = true }) ≡ false)
      × (none_failed (record f { empty = true }) ≡ false)
      × (none_failed (record f { timeout = true }) ≡ false)
      × (none_failed (record f { http = true }) ≡ false)
      × (none_failed (record f { socket = true }) ≡ false)
set_marked f h = ground arith

send_failed-Marked : (t : Task) (m : Manager) → Marked t → Carries Marked (send_failed t m)
unfolding send_failed start_receiving
send_failed-Marked t m h = (set_marked t.failure_code h).0

submit_recv-Marked :
    (env : Env) (n : ℕ) (t : Task) (m : Manager) → Marked t → Carries Marked (submit_recv env n t m)
unfolding submit_recv
submit_recv-Marked env n t m h =
    on_ok-Carries Marked (resize 0 t.data_vector (t.data_vector.size + n)) _
      λ v. if_lem (Carries Marked) env.recv_submitted h h

receive_more-Marked :
    (env : Env) (t : Task) (m : Manager) → Marked t → Carries Marked (receive_more env t m)
unfolding receive_more
receive_more-Marked env t m h =
    if_lem (Carries Marked) (owned t.data_vector) (submit_recv-Marked env t.chunk_size t m h) (
      if_lem (Carries Marked) (leb t.data_vector.capacity t.receive_buffer_offset)
        ((set_marked t.failure_code h).1) (submit_recv-Marked env _ t m h))

grow_for-Marked :
    (i : Option Info) (env : Env) (t : Task) (m : Manager)
    → Marked t
    → Carries Marked (grow_for i env t m)
unfolding grow_for
grow_for-Marked none env t m h = receive_more-Marked env t m h
grow_for-Marked (some i) env t m h =
    if_lem (Carries Marked)
      (owned t.data_vector && ltb t.data_vector.capacity (t.data_vector.size + t.chunk_size))
      (on_ok-Carries Marked (reserve 0 t.data_vector _) _
        (λ w. receive_more-Marked env (record t { data_vector = w }) m h))
      (receive_more-Marked env t m h)

complete-Marked :
    (i : Option Info) (t : Task) (m : Manager) → Marked t → Carries Marked (complete i t m)
unfolding complete
complete-Marked none t m h = tt
complete-Marked (some i) t m h =
    if_lem (Carries Marked) (check_success i.response.code) h ((set_marked t.failure_code h).4)

pub and_then-Carries :
    (P : Task → Type 0) (o : Outcome) (f : Task → Manager → Outcome)
    → Carries P o
    → ((t : Task) (m : Manager) → P t → Carries P (f t m))
    → Carries P (and_then o f)
and_then-Carries P (continues t m) f h k = k t m h
and_then-Carries P (returns t m) f h k = h
and_then-Carries P throws f h k = tt

module _ (resigning : Option (Bytes → Resigned)) where
  after_reset-Carries : (P : Task → Type 0) (r : Reset) → Leaves P r → Carries P (after_reset r)
  after_reset-Carries P (is_reset t m) h = h
  after_reset-Carries P (reset_throws t) h = tt
  after_reset-Carries P lost_message h = tt

  fail-Marked :
      (limit : ℕ) (code : Failures) (t : Task) (m : Manager)
      → none_failed code ≡ false
      → Carries Marked (fail resigning limit code t m)
  unfolding fail restart
  fail-Marked limit code t m h =
      let noted : Task = record t { failure_code = code; failures = t.failures + 1 } in
      after_reset-Carries Marked (reset resigning noted m (ltb limit t.failures)) (
        reset-Leaves Marked (λ u message c r k. k) resigning noted m (ltb limit t.failures)
          (if_lem Marked (ltb limit t.failures) h h))

  refuse-Marked : (t : Task) (m : Manager) → Marked t → Carries Marked (refuse resigning t m)
  unfolding refuse
  refuse-Marked t m h =
      fail-Marked connection_failures_max (record t.failure_code { socket = true })
        (record t { request = forget_fd t.request }) m (set_marked t.failure_code h).5

  connect_result-Marked :
      (c : Option Connection) (t : Task) (m : Manager)
      → Marked t
      → Carries Marked (connect_result resigning c t m)
  unfolding connect_result
  connect_result-Marked none t m h = refuse-Marked t m h
  connect_result-Marked (some c) t m h =
      if_lem (Carries Marked) c.connected (submit_send-Marked c.sockfd _ m h) (refuse-Marked t m h)

  send_stage-Marked :
      (l : Length) (fd : Option ℕ) (t : Task) (m : Manager)
      → Marked t
      → Carries Marked (send_stage resigning (record { length = l; fd = fd }) t m)
  unfolding send_stage send_timeout
  send_stage-Marked (bytes n) fd t m h =
      if_lem (Carries Marked) (ltb 0 n) (sent-Marked fd _ m h) (send_failed-Marked t m h)
  send_stage-Marked in_progress fd t m h = sent-Marked fd t m h
  send_stage-Marked try_again fd t m h = sent-Marked fd t m h
  send_stage-Marked other_error fd t m h = send_failed-Marked t m h
  send_stage-Marked _ fd t m h =
      fail-Marked failures_max (record t.failure_code { timeout = true }) t m
        (set_marked t.failure_code h).3

  judge-Marked :
      (env : Env) (r : Result myblob.Network.HttpHelper.Error Bool) (i : Option Info) (t : Task)
      (m : Manager)
      → Marked t
      → Carries Marked (judge resigning env r i t m)
  unfolding judge grow
  judge-Marked env (ok whole) i t m h =
      if_lem (Carries Marked) whole (complete-Marked i t m h) (grow_for-Marked _ env _ m h)
  judge-Marked env (err e) i t m h =
      fail-Marked failures_max (record t.failure_code { http = true }) _ m
        (set_marked t.failure_code h).4

  receive_stage-Marked :
      (env : Env) (l : Length) (fd : Option ℕ) (t : Task) (m : Manager)
      → Marked t
      → Carries Marked (receive_stage resigning env (record { length = l; fd = fd }) t m)
  unfolding receive_stage examine recv_failed grow
  receive_stage-Marked env (bytes n) fd t m h =
      if_lem (Carries Marked) (ltb 0 n)
        (on_ok-Carries Marked (resize 0 t.data_vector (t.receive_buffer_offset + n)) _
          (λ v. judge-Marked env _ _ _ m h))
        (fail-Marked failures_max _ t m (set_marked t.failure_code h).2)
  receive_stage-Marked env canceled fd t m h =
      fail-Marked failures_max _ t m (set_marked t.failure_code h).3
  receive_stage-Marked env interrupted fd t m h =
      fail-Marked failures_max _ t m (set_marked t.failure_code h).3
  receive_stage-Marked env other_error fd t m h =
      fail-Marked failures_max _ t m (set_marked t.failure_code h).1
  receive_stage-Marked env _ fd t m h =
      on_ok-Carries Marked (resize 0 t.data_vector _) _ (λ v. grow_for-Marked _ env _ m h)

  with_request-Marked :
      (r : Option Request) (f : Request → Outcome)
      → ((q : Request) → Carries Marked (f q))
      → Carries Marked (with_request r f)
  with_request-Marked none f h = tt
  with_request-Marked (some q) f h = h q

  round-Marked :
      (s : MessageState) (env : Env) (t : Task) (m : Manager)
      → Marked t
      → Carries Marked (round resigning s env t m)
  unfolding round connect_stage
  round-Marked MessageState.init env t m h = connect_result-Marked _ _ _ h
  round-Marked MessageState.init_sending env t m h = submit_send-Marked none t m h
  round-Marked MessageState.sending env t m h =
      with_request-Marked t.request _ (λ q. send_stage-Marked q.length q.fd t m h)
  round-Marked MessageState.init_receiving env t m h = receive_more-Marked env t m h
  round-Marked MessageState.receiving env t m h =
      with_request-Marked t.request _ (λ q. receive_stage-Marked env q.length q.fd t m h)
  round-Marked _ env t m h = h

  execute-Marked :
      (fuel : ℕ) (env : Env) (t : Task) (m : Manager)
      → Marked t
      → Carries Marked (execute resigning fuel env t m)
  unfolding execute
  execute-Marked zero env t m h = h
  execute-Marked (suc fuel) env t m h =
      and_then-Carries Marked (round resigning t.state env t m) _ (round-Marked t.state env t m h)
        (λ t' m' h'. execute-Marked fuel env t' m' h')

-- Once a failure is noted, no call of `execute` makes the message a success, also where a retry
-- gets the whole response and the state is `Finished`.
pub execute-failed :
    (resigning : Option (Bytes → Resigned)) (fuel : ℕ) (env : Env) (t t' : Task) (m m' : Manager)
    → none_failed t.failure_code ≡ false
    → execute resigning fuel env t m ≡ returns t' m'
    → success t' ≡ false
unfolding success
execute-failed resigning fuel env t t' m m' h e =
    let marked : Marked t' = subst (Carries Marked) e (execute-Marked resigning fuel env t m h) in
    ground arith
