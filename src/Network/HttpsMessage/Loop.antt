-- ===== src/Network/HttpsMessage/Loop.antt =====
-- The rounds of `HTTPSMessage::execute` of src/network/https_message.cpp.
use myblob.Base.{ℕ, zero, suc, ◌+◌, ◌-◌, Option}
use myblob.Base.Text.{Bytes}
use myblob.Network.ConnectionManager.{Manager}
use myblob.Network.HttpMessage.Task.{MessageState, Env}
use myblob.Network.HttpMessage.Sending.{Resigned}
use myblob.Network.HttpsMessage.Task.{
  TlsAnswers, TlsTask, TlsOutcome, continues, tries, returns, throws, crashes, piece_length,
}
use myblob.Network.HttpsMessage.Stages.{
  handle_tls, init_stage, handshake_stage, tls_send_stage, recv_room, shutdown_stage,
}

module _ (resigning : Option (Bytes → Resigned)) (tls : TlsAnswers) where
  abbrev pub called : TlsTask → TlsTask
  called t = record t { calls = t.calls + 1 }

  -- One round in a given state.
  unfoldable pub tls_round : MessageState → Env → TlsTask → Manager → TlsOutcome
  tls_round MessageState.init env t m = init_stage resigning tls env t m
  tls_round MessageState.tls_handshake env t m =
      handshake_stage resigning tls (tls.connect t.calls) (called t) m
  tls_round MessageState.init_sending env t m =
      tls_send_stage resigning tls (tls.send t.calls (piece_length t.base)) (called t) m
  tls_round MessageState.sending env t m =
      tls_send_stage resigning tls (tls.send t.calls (piece_length t.base)) (called t) m
  tls_round MessageState.init_receiving env t m = recv_room resigning tls 0 t m
  tls_round MessageState.receiving env t m =
      recv_room resigning tls (t.base.data_vector.size - t.base.receive_buffer_offset) t m
  tls_round MessageState.tls_shutdown env t m =
      shutdown_stage resigning tls (tls.shutdown t.calls) (called t) m
  tls_round _ env t m = returns t m

  -- The next round, where there is one.
  abbrev pub go_on : TlsOutcome → (TlsTask → Manager → TlsOutcome) → TlsOutcome
  go_on (continues t m) f = f t m
  go_on (tries t m) f = f t m
  go_on (returns t m) f = returns t m
  go_on (throws t m) f = throws t m
  go_on crashes f = crashes

  -- An exception of the rounds that follow from inside the `try` block is a failure of this one.
  abbrev pub caught : TlsOutcome → (TlsTask → Manager → TlsOutcome) → TlsOutcome
  caught (throws t m) f = go_on (handle_tls resigning tls t m) f
  caught (continues t m) f = continues t m
  caught (tries t m) f = tries t m
  caught (returns t m) f = returns t m
  caught crashes f = crashes

  abbrev pub then_next : TlsOutcome → (TlsTask → Manager → TlsOutcome) → TlsOutcome
  then_next (tries t m) f = caught (f t m) f
  then_next (continues t m) f = f t m
  then_next (returns t m) f = returns t m
  then_next (throws t m) f = throws t m
  then_next crashes f = crashes

  -- `HTTPSMessage::execute`, on fuel: at most `fuel` rounds.
  unfoldable pub execute_tls : ℕ → Env → TlsTask → Manager → TlsOutcome
  execute_tls zero env t m = continues t m
  execute_tls (suc fuel) env t m =
      then_next (tls_round t.base.state env t m) (λ t' m'. execute_tls fuel env t' m')
