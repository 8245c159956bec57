-- ===== src/Network/HttpMessage/Ends.antt =====
-- A call of `execute` ends: how many rounds it can take.
use myblob.Base.{
  ℕ, zero, suc, ◌+◌, ◌-◌, ◌≤◌, ◌<◌, Bool, ◌&&◌, Option, none, some, arith, ltb, leb, length, if_lem,
  Result, ok, err,
}
use myblob.Base.Text.{Bytes}
use myblob.Utils.DataVector.{NotOwned, owned, reserve, resize}
use myblob.Network.HttpResponse.{check_success}
use myblob.Network.HttpHelper.{Info}
use myblob.Network.HttpHelper
use myblob.Network.Connection.{Connection}
use myblob.Network.ConnectionManager.{Manager}
use myblob.Network.HttpMessage.Task.{
  MessageState, Failures, Length, bytes, in_progress, try_again, canceled, interrupted, other_error,
  Request, Task, Env, Outcome, continues, returns, throws, on_ok, failures_max,
}
use myblob.Network.HttpMessage.Sending.{
  Resigned, Reset, is_reset, reset_throws, lost_message, after_reset, restart, reset, fail,
  start_receiving, submit_send, sent, send_failed, send_timeout, send_stage, connect_stage,
  connect_result, refuse,
}
use myblob.Network.HttpMessage.Receiving.{
  submit_recv, receive_more, grow, grow_for, complete, examine, judge, recv_failed, receive_stage,
}
use myblob.Network.HttpMessage.Resets.{Leaves, reset-Leaves}
use myblob.Network.HttpMessage.Loop.{with_request, and_then, round, execute}

-- The rounds that can follow: each attempt to connect counts a failure, and five may fail.
abbrev rank : MessageState → ℕ → ℕ
rank MessageState.init failures = 2 + (5 - failures)
rank MessageState.sending failures = 3 + (5 - failures)
rank MessageState.receiving failures = 3 + (5 - failures)
rank _ failures = 1

-- Where the loop goes on, fewer than `n` rounds follow.
abbrev Within : ℕ → Outcome → Type 0
Within n (continues t m) = rank t.state t.failures < n
Within n (returns t m) = Unit
Within n throws = Unit

on_ok-Within :
    {A : Type 0} (n : ℕ) (r : Result NotOwned A) (f : A → Outcome)
    → ((a : A) → Within n (f a))
    → Within n (on_ok r f)
on_ok-Within n (ok a) f h = h a
on_ok-Within n (err e) f h = tt

sent-Within : (n : ℕ) (fd : Option ℕ) (t : Task) (m : Manager) → 1 < n → Within n (sent fd t m)
unfolding sent start_receiving submit_send
sent-Within n fd t m h =
    if_lem (Within n) (leb (length t.message + t.put_length) t.send_buffer_offset) h tt

send_failed-Within : (n : ℕ) (t : Task) (m : Manager) → 1 < n → Within n (send_failed t m)
unfolding send_failed start_receiving
send_failed-Within n t m h = h

submit_recv-Within :
    (n : ℕ) (env : Env) (size : ℕ) (t : Task) (m : Manager) → Within n (submit_recv env size t m)
unfolding submit_recv
submit_recv-Within n env size t m =
    on_ok-Within n (resize 0 t.data_vector (t.data_vector.size + size)) _
      (λ v. if_lem (Within n) env.recv_submitted tt tt)

receive_more-Within : (n : ℕ) (env : Env) (t : Task) (m : Manager) → Within n (receive_more env t m)
unfolding receive_more
receive_more-Within n env t m =
    if_lem (Within n) (owned t.data_vector) (submit_recv-Within n env t.chunk_size t m) (
      if_lem (Within n) (leb t.data_vector.capacity t.receive_buffer_offset) tt
        (submit_recv-Within n env _ t m))

grow_for-Within :
    (n : ℕ) (i : Option Info) (env : Env) (t : Task) (m : Manager) → Within n (grow_for i env t m)
unfolding grow_for
grow_for-Within n none env t m = receive_more-Within n env t m
grow_for-Within n (some i) env t m =
    if_lem (Within n)
      (owned t.data_vector && ltb t.data_vector.capacity (t.data_vector.size + t.chunk_size))
      (on_ok-Within n (reserve 0 t.data_vector _) _
        (λ w. receive_more-Within n env (record t { data_vector = w }) m))
      (receive_more-Within n env t m)

complete-Within : (n : ℕ) (i : Option Info) (t : Task) (m : Manager) → Within n (complete i t m)
unfolding complete
complete-Within n none t m = tt
complete-Within n (some i) t m = if_lem (Within n) (check_success i.response.code) tt tt

module _ (resigning : Option (Bytes → Resigned)) where
  after_reset-Within :
      (n : ℕ) (r : Reset) → Leaves (λ t. rank t.state t.failures < n) r → Within n (after_reset r)
  after_reset-Within n (is_reset t m) h = h
  after_reset-Within n (reset_throws t) h = tt
  after_reset-Within n lost_message h = tt

  reset-Within :
      (n : ℕ) (t : Task) (m : Manager) (b : Bool)
      → rank (restart b t).state (restart b t).failures < n
      → Within n (after_reset (reset resigning t m b))
  reset-Within n t m b h = after_reset-Within n (reset resigning t m b) (
      reset-Leaves (λ (u : Task). rank u.state u.failures < n) (λ u message c r k. k) resigning t m
        b h)

  fail-Within :
      (limit : ℕ) (code : Failures) (t : Task) (m : Manager)
      → Within (3 + (5 - t.failures)) (fail resigning limit code t m)
  unfolding fail restart
  fail-Within limit code t m = reset-Within _ _ m (ltb limit t.failures) (ground arith)

  refuse-Within : (t : Task) (m : Manager) → Within (2 + (5 - t.failures)) (refuse resigning t m)
  unfolding refuse fail restart
  refuse-Within t m = reset-Within _ _ m (ltb 4 t.failures) (ground arith)

  connect_result-Within :
      (c : Option Connection) (t : Task) (m : Manager)
      → Within (2 + (5 - t.failures)) (connect_result resigning c t m)
  unfolding connect_result submit_send
  connect_result-Within none t m = refuse-Within t m
  connect_result-Within (some c) t m =
      if_lem (Within (2 + (5 - t.failures))) c.connected tt (refuse-Within t m)

  send_stage-Within :
      (l : Length) (fd : Option ℕ) (t : Task) (m : Manager)
      → Within (3 + (5 - t.failures)) (send_stage resigning (record { length = l; fd = fd }) t m)
  unfolding send_stage send_timeout
  send_stage-Within (bytes n) fd t m =
      if_lem (Within (3 + (5 - t.failures))) (ltb 0 n)
        (sent-Within _ fd (record t { send_buffer_offset = t.send_buffer_offset + n }) m
          (omega arith))
        (send_failed-Within _ t m (omega arith))
  send_stage-Within in_progress fd t m = sent-Within _ fd t m (omega arith)
  send_stage-Within try_again fd t m = sent-Within _ fd t m (omega arith)
  send_stage-Within other_error fd t m = send_failed-Within _ t m (omega arith)
  send_stage-Within _ fd t m = fail-Within failures_max _ t m

  judge-Within :
      (env : Env) (r : Result myblob.Network.HttpHelper.Error Bool) (i : Option Info) (t : Task)
      (m : Manager)
      → Within (3 + (5 - t.failures)) (judge resigning env r i t m)
  unfolding judge grow
  judge-Within env (ok whole) i t m =
      if_lem (Within (3 + (5 - t.failures))) whole (complete-Within _ i t m)
        (grow_for-Within _ i env (record t { info = i }) m)
  judge-Within env (err e) i t m = fail-Within failures_max _ (record t { info = i }) m

  receive_stage-Within :
      (env : Env) (l : Length) (fd : Option ℕ) (t : Task) (m : Manager)
      → Within
          (3 + (5 - t.failures))
          (receive_stage resigning env (record { length = l; fd = fd }) t m)
  unfolding receive_stage examine recv_failed grow
  receive_stage-Within env (bytes n) fd t m =
      if_lem (Within (3 + (5 - t.failures))) (ltb 0 n)
        (on_ok-Within _ (resize 0 t.data_vector (t.receive_buffer_offset + n)) _ (λ v.
          judge-Within env _ _
            (record t { data_vector = v; receive_buffer_offset = t.receive_buffer_offset + n }) m))
        (fail-Within failures_max _ t m)
  receive_stage-Within env canceled fd t m = fail-Within failures_max _ t m
  receive_stage-Within env interrupted fd t m = fail-Within failures_max _ t m
  receive_stage-Within env other_error fd t m = fail-Within failures_max _ t m
  receive_stage-Within env _ fd t m =
      on_ok-Within _ (resize 0 t.data_vector _) _
        (λ v. grow_for-Within _ t.info env (record t { data_vector = v }) m)

  with_request-Within :
      (n : ℕ) (r : Option Request) (f : Request → Outcome)
      → ((q : Request) → Within n (f q))
      → Within n (with_request r f)
  with_request-Within n none f h = tt
  with_request-Within n (some q) f h = h q

  round-Within :
      (s : MessageState) (env : Env) (t : Task) (m : Manager)
      → Within (rank s t.failures) (round resigning s env t m)
  unfolding round connect_stage submit_send
  round-Within MessageState.init env t m = connect_result-Within _ (record t { connection = _ }) _
  round-Within MessageState.init_sending env t m = tt
  round-Within MessageState.sending env t m =
      with_request-Within _ t.request _ (λ q. send_stage-Within q.length q.fd t m)
  round-Within MessageState.init_receiving env t m = receive_more-Within _ env t m
  round-Within MessageState.receiving env t m =
      with_request-Within _ t.request _ (λ q. receive_stage-Within env q.length q.fd t m)
  round-Within _ env t m = tt

-- The loop has been left.
abbrev pub IsOver : Outcome → Type 0
IsOver (continues t m) = ⊥
IsOver (returns t m) = Unit
IsOver throws = Unit

and_then-IsOver :
    (n : ℕ) (o : Outcome) (f : Task → Manager → Outcome)
    → Within n o
    → ((t : Task) (m : Manager) → rank t.state t.failures < n → IsOver (f t m))
    → IsOver (and_then o f)
and_then-IsOver n (continues t m) f h k = k t m h
and_then-IsOver n (returns t m) f h k = tt
and_then-IsOver n throws f h k = tt

rank_pos : (s : MessageState) (n : ℕ) → 0 < rank s n
rank_pos s n = ground arith

rank_bound : (s : MessageState) (n : ℕ) → rank s n ≤ 8
rank_bound s n = ground arith

execute-within :
    (resigning : Option (Bytes → Resigned)) (fuel : ℕ) (env : Env) (t : Task) (m : Manager)
    → rank t.state t.failures ≤ fuel
    → IsOver (execute resigning fuel env t m)
unfolding execute
execute-within resigning zero env t m h =
    absurd (let p = rank_pos t.state t.failures in omega arith)
execute-within resigning (suc fuel) env t m h =
    and_then-IsOver (rank t.state t.failures) (round resigning t.state env t m) _
      (round-Within resigning t.state env t m)
      (λ t' m' l. execute-within resigning fuel env t' m' (omega arith))

-- Whatever the system answers, one call of `execute` leaves its loop within eight rounds, from
-- whatever state and after however many failures.
pub execute_ends :
    (resigning : Option (Bytes → Resigned)) (fuel : ℕ) (env : Env) (t : Task) (m : Manager)
    → 8 ≤ fuel
    → IsOver (execute resigning fuel env t m)
execute_ends resigning fuel env t m h =
    execute-within resigning fuel env t m (let b = rank_bound t.state t.failures in omega arith)
