-- ===== src/Network/HttpsMessage/Answered/Carried.antt =====
-- What a round keeps until the response has come, up to the sending:
-- src/network/https_message.cpp.
use myblob.Base.{ℕ, ◌+◌, ◌≡◌, Bool, true, false, Option, none, some, ltb, leb, if_lem, length, ok}
use myblob.Base.Text.{Bytes}
use myblob.Network.HttpResponse.{check_success}
use myblob.Network.HttpHelper.{Info, finished, known_info, detect}
use myblob.Network.HttpHelper
use myblob.Network.Connection.{Connection}
use myblob.Network.ConnectionManager.{Manager}
use myblob.Network.HttpMessage.Task.{
  MessageState, Failures, Task, failures_max, connection_failures_max,
}
use myblob.Network.HttpMessage.Sending.{
  Resigned, Reset, is_reset, reset_throws, lost_message, restart, reset, start_receiving,
}
use myblob.Network.HttpMessage.Receiving.{received}
use myblob.Network.HttpMessage.Resets.{Leaves, Fresh, FreshIn, restart-Fresh, reset-Leaves}
use myblob.Network.HttpsMessage.Task.{
  Progress, TlsAnswers, TlsTask, TlsOutcome, continues, tries, returns, throws, crashes, sent_piece,
}
use myblob.Network.HttpsMessage.Stages.{
  after_reset_tls, reset_tls, fail_tls, handle_tls, refuse_tls, set_up_tls, connected_tls,
  handshake_stage, tls_send_stage,
}

-- The states behind the response.
unfoldable pub Late : MessageState → Type 0
Late MessageState.tls_shutdown = Unit {0}
Late MessageState.finished = Unit {0}
Late _ = ⊥

-- The bytes received are a whole response by `HttpHelper::finished` under the head `noted` before,
-- the head with which they are one is there, and its code means success.
pub record Answered (t : TlsTask) : Type 0 where
  pub info : Info
  pub noted : Option Info
  pub response : t.base.response ≡ some info
  pub success : check_success info.response.code ≡ true
  pub whole : myblob.Network.HttpHelper.finished (received t.base) noted ≡ (ok true, some info)

pub record Good (t : TlsTask) : Type 0 where
  pub late : Late t.base.state → Answered t
  pub fresh : Fresh t.base

unfoldable pub Carries : TlsOutcome → Type 0
Carries (continues t m) = Good t
Carries (tries t m) = Good t
Carries (returns t m) = Good t
Carries (throws t m) = Unit {0}
Carries crashes = Unit {0}

-- A task that is to start again, or is given up.
abbrev pub Renewed : Task → Type 0
Renewed b = Fresh b × (Late b.state → ⊥)

restart-Renewed : (b : Bool) (t : Task) → Renewed (restart b t)
unfolding restart Late
restart-Renewed true t = (restart-Fresh true t, λ l. l)
restart-Renewed false t = (restart-Fresh false t, λ l. l)

after_reset_tls-Good :
    (t : TlsTask) (m : Manager) (next thrown : TlsTask → Manager → TlsOutcome) (r : Reset)
    → Leaves Renewed r
    → ((u : TlsTask) (k : Manager) → Renewed u.base → Carries (next u k))
    → ((u : TlsTask) (k : Manager) → Carries (thrown u k))
    → Carries (after_reset_tls t m next thrown r)
unfolding Carries
after_reset_tls-Good t m next thrown (is_reset b m') h f g = f (record t { base = b }) m' h
after_reset_tls-Good t m next thrown (reset_throws b) h f g = g (record t { base = b }) m
after_reset_tls-Good t m next thrown lost_message h f g = tt

pub Renewed-Good : (t : TlsTask) → Renewed t.base → Good t
Renewed-Good t h = record { late = λ l. absurd (h.1 l); fresh = h.0 }

module _ (resigning : Option (Bytes → Resigned)) (tls : TlsAnswers) where
  pub reset_tls-Good :
      (t : TlsTask) (m : Manager) (give_up : Bool) (next thrown : TlsTask → Manager → TlsOutcome)
      → ((u : TlsTask) (k : Manager) → Renewed u.base → Carries (next u k))
      → ((u : TlsTask) (k : Manager) → Carries (thrown u k))
      → Carries (reset_tls resigning tls t m give_up next thrown)
  unfolding reset_tls
  reset_tls-Good t m give_up next thrown f g =
      after_reset_tls-Good (record t { tls_layer = false; fd = none }) m next thrown
        (reset resigning t.base m give_up)
        (reset-Leaves Renewed (λ u message c r k. k) resigning t.base m give_up
          (restart-Renewed give_up t.base))
        f g

  pub fail_tls-Good :
      (limit : ℕ) (code : Failures) (t : TlsTask) (m : Manager)
      → Carries (fail_tls resigning tls limit code t m)
  unfolding fail_tls Carries
  fail_tls-Good limit code t m =
      reset_tls-Good _ m (ltb limit t.base.failures) continues throws (λ u k h. Renewed-Good u h)
        (λ u k. tt)

  pub handle_tls-Good : (t : TlsTask) (m : Manager) → Carries (handle_tls resigning tls t m)
  unfolding handle_tls
  handle_tls-Good t m = fail_tls-Good failures_max _ t m

  refuse_tls-Good : (t : TlsTask) (m : Manager) → Carries (refuse_tls resigning tls t m)
  unfolding refuse_tls
  refuse_tls-Good t m = fail_tls-Good connection_failures_max _ _ m

  set_up_tls-Good :
      (c : Connection) (t : TlsTask) (m : Manager)
      → t.base.info ≡ none
      → Carries (set_up_tls resigning tls c t m)
  unfolding set_up_tls Carries Late FreshIn
  set_up_tls-Good c t m h =
      if_lem Carries (tls.set_up t.calls) (record { late = λ l. absurd l; fresh = h })
        (fail_tls-Good connection_failures_max _ _ m)

  pub connected_tls-Good :
      (c : Option Connection) (t : TlsTask) (m : Manager)
      → t.base.info ≡ none
      → Carries (connected_tls resigning tls c t m)
  unfolding connected_tls
  connected_tls-Good none t m h = refuse_tls-Good t m
  connected_tls-Good (some c) t m h =
      if_lem Carries c.connected (set_up_tls-Good c t m h) (refuse_tls-Good t m)

  pub handshake_stage-Good :
      (p : Progress) (t : TlsTask) (m : Manager)
      → t.base.info ≡ none
      → Good t
      → Carries (handshake_stage resigning tls p t m)
  unfolding handshake_stage Carries Late FreshIn
  handshake_stage-Good Progress.finished t m i h = record { late = λ l. absurd l; fresh = i }
  handshake_stage-Good Progress.aborted t m i h = fail_tls-Good failures_max _ t m
  handshake_stage-Good Progress.init t m i h = h
  handshake_stage-Good Progress.sending_init t m i h = h
  handshake_stage-Good Progress.sending t m i h = h
  handshake_stage-Good Progress.receiving_init t m i h = h
  handshake_stage-Good Progress.receiving t m i h = h
  handshake_stage-Good Progress.in_progress t m i h = h

  sent_piece-Good :
      (n : ℕ) (t : TlsTask) (m : Manager)
      → t.base.info ≡ none
      → Renewed t.base
      → Carries (sent_piece n t m)
  unfolding sent_piece Carries start_receiving Late FreshIn
  sent_piece-Good n t m i h =
      let b = record t.base { send_buffer_offset = t.base.send_buffer_offset + n } in
      if_lem (λ (c : Task). Good (record t { base = c }))
        (leb (length t.base.message + t.base.put_length) (t.base.send_buffer_offset + n))
        (record { late = λ l. absurd l; fresh = i }) (Renewed-Good (record t { base = b }) h)

  pub tls_send_stage-Good :
      (p : Progress × ℕ) (t : TlsTask) (m : Manager)
      → t.base.info ≡ none
      → Renewed t.base
      → Carries (tls_send_stage resigning tls p t m)
  unfolding tls_send_stage Carries Late FreshIn
  tls_send_stage-Good (Progress.finished, n) t m i h = sent_piece-Good n t m i h
  tls_send_stage-Good (Progress.aborted, n) t m i h = fail_tls-Good failures_max _ t m
  tls_send_stage-Good (Progress.init, n) t m i h = record { late = λ l. absurd l; fresh = i }
  tls_send_stage-Good (Progress.sending_init, n) t m i h = record {
    late = λ l. absurd l;
    fresh = i;
  }
  tls_send_stage-Good (Progress.sending, n) t m i h = record { late = λ l. absurd l; fresh = i }
  tls_send_stage-Good (Progress.receiving_init, n) t m i h = record {
    late = λ l. absurd l;
    fresh = i;
  }
  tls_send_stage-Good (Progress.receiving, n) t m i h = record { late = λ l. absurd l; fresh = i }
  tls_send_stage-Good (Progress.in_progress, n) t m i h = record { late = λ l. absurd l; fresh = i }
