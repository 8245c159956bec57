-- ===== src/Network/HttpMessage/Finished.antt =====
-- What the state `Finished` means.
use mathlib.Core.Path.{subst}
use myblob.Base.{
  ℕ, zero, suc, ◌+◌, ◌≡◌, ◌≢◌, refl, ap, sym, ◌<◌, Bool-cases, inl, inr, Bool, true, false, ◌&&◌,
  Option, none, some, arith, ltb, leb, length, if_lem, Result, ok, err,
}
use myblob.Base.Text.{Bytes}
use myblob.Utils.DataVector.{NotOwned, owned, reserve, resize}
use myblob.Network.HttpResponse.{check_success}
use myblob.Network.HttpHelper.{Info}
use myblob.Network.HttpHelper
use myblob.Network.Connection.{Connection}
use myblob.Network.ConnectionManager.{Manager}
use myblob.Network.HttpMessage.Task.{
  MessageState, Failures, Length, bytes, in_progress, try_again, canceled, interrupted, other_error,
  Request, Task, Env, Outcome, continues, returns, throws, on_ok, failures_max,
  connection_failures_max,
}
use myblob.Network.HttpMessage.Sending.{
  Resigned, Reset, is_reset, reset_throws, lost_message, after_reset, restart, reset, fail,
  start_receiving, submit_send, sent, send_failed, send_timeout, send_stage, connect_stage,
  connect_result, refuse,
}
use myblob.Network.HttpMessage.Receiving.{
  submit_recv, receive_more, grow, grow_for, complete, examine, judge, recv_failed, receive_stage,
}
use myblob.Network.HttpMessage.Resets.{Leaves, Fresh, FreshIn, restart-Fresh, reset-Leaves}
use myblob.Network.HttpMessage.Loop.{with_request, and_then, round, execute}
use myblob.Network.HttpMessage.Receiving.{received}

abbrev is_finished : MessageState → Bool
is_finished MessageState.finished = true
is_finished _ = false

-- The states in which a round can end the request.
abbrev is_last : MessageState → Bool
is_last MessageState.finished = true
is_last MessageState.receiving = true
is_last _ = false

-- The bytes received are a whole response under the head noted before, which is `noted`; the result
-- holds the head with which they are one, and its code means success.
abbrev pub IsWhole : Option Info → Task → Type 0
IsWhole noted t =
    (i : Info) × (t.response ≡ some i)
    × (check_success i.response.code ≡ true)
    × (myblob.Network.HttpHelper.finished (received t) noted ≡ (ok true, some i))

record End (noted : Option Info) (t : Task) : Type 0 where
  by_now : t.state ≡ MessageState.finished → IsWhole noted t
  fresh : Fresh t

-- Where the loop goes on, the next round does not end the request.
abbrev Leads : Option Info → Outcome → Type 0
Leads noted (continues t m) = Fresh t × (is_last t.state ≡ false)
Leads noted (returns t m) = End noted t
Leads noted throws = Unit

not_yet : (noted : Option Info) (t : Task) → is_finished t.state ≡ false → Fresh t → End noted t
not_yet noted t h f = record { by_now = λ e. absurd (let f = ap is_finished e in cc); fresh = f }

on_ok-Leads :
    {A : Type 0} (noted : Option Info) (r : Result NotOwned A) (f : A → Outcome)
    → ((a : A) → Leads noted (f a))
    → Leads noted (on_ok r f)
on_ok-Leads noted (ok a) f h = h a
on_ok-Leads noted (err e) f h = tt

module _ (noted : Option Info) where
  sent-End : (fd : Option ℕ) (t : Task) (m : Manager) → t.info ≡ none → Leads noted (sent fd t m)
  unfolding sent start_receiving submit_send FreshIn
  sent-End fd t m h =
      if_lem (Leads noted) (leb (length t.message + t.put_length) t.send_buffer_offset) (h, refl)
        (not_yet noted _ refl h)

  submit_recv-End :
      (env : Env) (size : ℕ) (t : Task) (m : Manager)
      → is_finished t.state ≡ false
      → Fresh t
      → (t.receive_buffer_offset ≡ 0 → t.info ≡ none)
      → Leads noted (submit_recv env size t m)
  unfolding submit_recv FreshIn
  submit_recv-End env size t m h f k =
      on_ok-Leads noted (resize 0 t.data_vector (t.data_vector.size + size)) _ (λ v.
        if_lem (Leads noted) env.recv_submitted (not_yet noted _ refl k) (not_yet noted _ h f))

  receive_more-End :
      (env : Env) (t : Task) (m : Manager)
      → is_finished t.state ≡ false
      → Fresh t
      → (t.receive_buffer_offset ≡ 0 → t.info ≡ none)
      → Leads noted (receive_more env t m)
  unfolding receive_more FreshIn
  receive_more-End env t m h f k =
      if_lem (Leads noted) (owned t.data_vector) (submit_recv-End env t.chunk_size t m h f k) (
        if_lem (Leads noted) (leb t.data_vector.capacity t.receive_buffer_offset)
          (not_yet noted _ refl tt) (submit_recv-End env _ t m h f k))

  grow_for-End :
      (i : Option Info) (env : Env) (t : Task) (m : Manager)
      → is_finished t.state ≡ false
      → Fresh t
      → (t.receive_buffer_offset ≡ 0 → t.info ≡ none)
      → Leads noted (grow_for i env t m)
  unfolding grow_for
  grow_for-End none env t m h f k = receive_more-End env t m h f k
  grow_for-End (some i) env t m h f k =
      if_lem (Leads noted)
        (owned t.data_vector && ltb t.data_vector.capacity (t.data_vector.size + t.chunk_size))
        (on_ok-Leads noted (reserve 0 t.data_vector _) _
          (λ w. receive_more-End env (record t { data_vector = w }) m h f k))
        (receive_more-End env t m h f k)

  complete-End :
      (i : Option Info) (t : Task) (m : Manager)
      → myblob.Network.HttpHelper.finished (received t) noted ≡ (ok true, i)
      → Leads noted (complete i t m)
  unfolding complete FreshIn
  complete-End none t m h = tt
  complete-End (some i) t m h = elim (Bool-cases (check_success i.response.code)) [
    | inl e ↦ rw e (record { by_now = λ q. (i, refl, e, h); fresh = tt })
    | inr e ↦ rw e (not_yet noted _ refl tt)
  ]

  after_reset-End :
      (r : Reset)
      → Leaves (λ t. Fresh t × (is_last t.state ≡ false)) r
      → Leads noted (after_reset r)
  after_reset-End (is_reset t m) h = h
  after_reset-End (reset_throws t) h = tt
  after_reset-End lost_message h = tt

  with_request-End :
      (r : Option Request) (f : Request → Outcome)
      → ((q : Request) → Leads noted (f q))
      → Leads noted (with_request r f)
  with_request-End none f h = tt
  with_request-End (some q) f h = h q

restart-last : (b : Bool) (t : Task) → is_last (restart b t).state ≡ false
unfolding restart
restart-last true t = refl
restart-last false t = refl

module _ (resigning : Option (Bytes → Resigned)) (noted : Option Info) where
  fail-End :
      (limit : ℕ) (code : Failures) (t : Task) (m : Manager)
      → Leads noted (fail resigning limit code t m)
  unfolding fail
  fail-End limit code t m =
      let u : Task = record t { failure_code = code; failures = t.failures + 1 } in
      let b = ltb limit t.failures in
      after_reset-End noted (reset resigning u m b) (
        reset-Leaves (λ (w : Task). Fresh w × (is_last w.state ≡ false)) (λ w message c r k. k)
          resigning u m b (restart-Fresh b u, restart-last b u))

  connect_result-End :
      (c : Option Connection) (t : Task) (m : Manager)
      → t.info ≡ none
      → Leads noted (connect_result resigning c t m)
  unfolding connect_result submit_send refuse FreshIn
  connect_result-End none t m h = fail-End connection_failures_max _ _ m
  connect_result-End (some c) t m h =
      if_lem (Leads noted) c.connected (not_yet noted _ refl h)
        (fail-End connection_failures_max _ _ m)

  send_stage-End :
      (l : Length) (fd : Option ℕ) (t : Task) (m : Manager)
      → t.info ≡ none
      → Leads noted (send_stage resigning (record { length = l; fd = fd }) t m)
  unfolding send_stage send_timeout send_failed start_receiving FreshIn
  send_stage-End (bytes n) fd t m h =
      if_lem (Leads noted) (ltb 0 n)
        (sent-End noted fd (record t { send_buffer_offset = t.send_buffer_offset + n }) m h)
        (h, refl)
  send_stage-End in_progress fd t m h = sent-End noted fd t m h
  send_stage-End try_again fd t m h = sent-End noted fd t m h
  send_stage-End other_error fd t m h = (h, refl)
  send_stage-End _ fd t m h = fail-End failures_max _ t m

  judge-End :
      (env : Env) (r : Result myblob.Network.HttpHelper.Error Bool) (i : Option Info) (t : Task)
      (m : Manager)
      → t.state ≡ MessageState.receiving
      → 0 < t.receive_buffer_offset
      → myblob.Network.HttpHelper.finished (received t) noted ≡ (r, i)
      → Leads noted (judge resigning env r i t m)
  unfolding judge grow FreshIn
  judge-End env (ok true) i t m s l e = complete-End noted i t m e
  judge-End env (ok false) i t m s l e =
      let k : t.receive_buffer_offset ≡ 0 → i ≡ none = λ z. absurd (omega arith) in
      grow_for-End noted i env (record t { info = i }) m (ap is_finished s)
        (subst (λ q. FreshIn q t.receive_buffer_offset i) (sym s) k) k
  judge-End env (err x) i t m s l e = fail-End failures_max _ (record t { info = i }) m

  receive_stage-End :
      (env : Env) (l : Length) (fd : Option ℕ) (t : Task) (m : Manager)
      → t.state ≡ MessageState.receiving
      → (t.receive_buffer_offset ≡ 0 → t.info ≡ none)
      → t.info ≡ noted
      → Leads noted (receive_stage resigning env (record { length = l; fd = fd }) t m)
  unfolding receive_stage examine recv_failed grow FreshIn
  receive_stage-End env (bytes n) fd t m s k e = elim (Bool-cases (ltb 0 n)) [
    | inl b ↦ rw b (
        on_ok-Leads noted (resize 0 t.data_vector (t.receive_buffer_offset + n)) _ (λ v.
          let t' : Task = record t {
            data_vector = v;
            receive_buffer_offset = t.receive_buffer_offset + n;
          } in
          judge-End env _ _ t' m s (ground arith)
            (ap (λ q. myblob.Network.HttpHelper.finished (received t') q) (sym e))))
    | inr b ↦ rw b (fail-End failures_max _ t m)
  ]
  receive_stage-End env canceled fd t m s k e = fail-End failures_max _ t m
  receive_stage-End env interrupted fd t m s k e = fail-End failures_max _ t m
  receive_stage-End env other_error fd t m s k e = fail-End failures_max _ t m
  receive_stage-End env _ fd t m s k e = on_ok-Leads noted (resize 0 t.data_vector _) _ (λ v.
      grow_for-End noted t.info env (record t { data_vector = v }) m (ap is_finished s)
        (subst (λ q. FreshIn q t.receive_buffer_offset t.info) (sym s) k) k)

  round-End :
      (s : MessageState) (env : Env) (t : Task) (m : Manager)
      → t.state ≡ s
      → FreshIn s t.receive_buffer_offset t.info
      → is_finished s ≡ false
      → (is_last s ≡ true → t.info ≡ noted)
      → Leads noted (round resigning s env t m)
  unfolding round connect_stage submit_send FreshIn
  round-End MessageState.init env t m e f n i = connect_result-End _ _ _ f
  round-End MessageState.init_sending env t m e f n i = not_yet noted _ refl f
  round-End MessageState.sending env t m e f n i =
      with_request-End noted t.request _ (λ q. send_stage-End q.length q.fd t m f)
  round-End MessageState.init_receiving env t m e f n i =
      receive_more-End noted env t m (ap is_finished e)
        (subst (λ q. FreshIn q t.receive_buffer_offset t.info) (sym e) f) (λ z. f)
  round-End MessageState.receiving env t m e f n i =
      with_request-End noted t.request _ (λ q. receive_stage-End env q.length q.fd t m e f (i refl))
  round-End MessageState.finished env t m e f n i = absurd (cc)
  round-End MessageState.tls_handshake env t m e f n i =
      not_yet noted t (ap is_finished e)
        (subst (λ q. FreshIn q t.receive_buffer_offset t.info) (sym e) f)
  round-End MessageState.tls_shutdown env t m e f n i =
      not_yet noted t (ap is_finished e)
        (subst (λ q. FreshIn q t.receive_buffer_offset t.info) (sym e) f)
  round-End MessageState.aborted env t m e f n i =
      not_yet noted t (ap is_finished e)
        (subst (λ q. FreshIn q t.receive_buffer_offset t.info) (sym e) f)
  round-End MessageState.cancelled env t m e f n i =
      not_yet noted t (ap is_finished e)
        (subst (λ q. FreshIn q t.receive_buffer_offset t.info) (sym e) f)

  and_then-End :
      (o : Outcome) (f : Task → Manager → Outcome)
      → Leads noted o
      → ((t : Task) (m : Manager) → Fresh t → is_last t.state ≡ false → Leads noted (f t m))
      → Leads noted (and_then o f)
  and_then-End (continues t m) f h k = k t m h.0 h.1
  and_then-End (returns t m) f h k = h
  and_then-End throws f h k = tt

  not_last : (s : MessageState) → is_last s ≡ false → is_finished s ≡ false
  not_last s h = ground arith

  -- After the first round.
  later-End :
      (fuel : ℕ) (env : Env) (t : Task) (m : Manager)
      → Fresh t
      → is_last t.state ≡ false
      → Leads noted (execute resigning fuel env t m)
  unfolding execute
  later-End zero env t m f l = (f, l)
  later-End (suc fuel) env t m f l =
      and_then-End (round resigning t.state env t m) _
        (round-End t.state env t m refl f (not_last t.state l) (λ e. absurd (cc)))
        (λ t' m' f' l'. later-End fuel env t' m' f' l')

state_not : (s : MessageState) → s ≢ MessageState.finished → is_finished s ≡ false
state_not MessageState.finished h = absurd (h refl)
state_not MessageState.init h = refl
state_not MessageState.tls_handshake h = refl
state_not MessageState.init_sending h = refl
state_not MessageState.sending h = refl
state_not MessageState.init_receiving h = refl
state_not MessageState.receiving h = refl
state_not MessageState.tls_shutdown h = refl
state_not MessageState.aborted h = refl
state_not MessageState.cancelled h = refl

-- Where no head is noted before bytes have been received, a call of `execute` on a message that is
-- not finished keeps that so, also over its resets. Where it returns with the state `Finished`, the
-- bytes received are a whole response by `HttpHelper::finished` under the head that was noted when the
-- call began, the result holds the head found by that, and its code means success.
pub execute-finished :
    (resigning : Option (Bytes → Resigned)) (fuel : ℕ) (env : Env) (t t' : Task) (m m' : Manager)
    → Fresh t
    → t.state ≢ MessageState.finished
    → execute resigning (suc fuel) env t m ≡ returns t' m'
    → Fresh t' × (t'.state ≡ MessageState.finished → IsWhole t.info t')
unfolding execute
execute-finished resigning fuel env t t' m m' f h e =
    let first : Leads t.info (execute resigning (suc fuel) env t m) =
      and_then-End resigning t.info (round resigning t.state env t m) _
        (round-End resigning t.info t.state env t m refl f (state_not t.state h) (λ q. refl))
        (λ u k g l. later-End resigning t.info fuel env u k g l) in
    let end : End t.info t' = subst (Leads t.info) e first in (end.fresh, end.by_now)
