-- ===== src/Network/HttpMessage/Sending.antt =====
-- Connecting, sending and giving up: `execute` up to the state `Sending`, and `reset`, in
-- src/network/http_message.cpp. `resigning` is what the provider's `resignRequest` makes of a
-- message, where the provider supports that: a null pointer, where its keys are not valid, and an
-- exception are results, too.
use myblob.Base.{ℕ, ◌+◌, ◌-◌, Bool, true, ◌&&◌, Option, none, some, ltb, leb, if◌then◌else◌, length}
use myblob.Base.Text.{Bytes}
use myblob.Utils.DataVector.{clear}
use myblob.Network.Connection.{Connection, disconnect}
use myblob.Network.ConnectionManager.{Manager, get_connection, return_connection}
use myblob.Network.HttpMessage.Task.{
  MessageState, Failures, bytes, in_progress, try_again, canceled, interrupted, other_error,
  Request, Task, failures_max, connection_failures_max, Env, Outcome, continues, returns, throws,
  forget_fd,
}

pub data Resigned : Type 0 where
  resigned : Bytes → Resigned
  null_message resign_throws : Resigned

-- What `reset` does: an exception leaves the task behind with its connection, and a null message is
-- dereferenced by the next attempt.
pub data Reset : Type 0 where
  is_reset : Task → Manager → Reset
  reset_throws : Task → Reset
  lost_message : Reset

-- The progress that `reset` undoes, or its end.
unfoldable pub restart : Bool → Task → Task
restart give_up t = if give_up then record t { state = MessageState.aborted } else record t {
  data_vector = clear t.data_vector;
  receive_buffer_offset = 0;
  send_buffer_offset = 0;
  info = none;
  state = MessageState.init;
}

-- The connection is closed and given back.
unfoldable pub hang_up : Option Connection → Manager → Manager
hang_up none m = m
hang_up (some c) m = return_connection (some (disconnect c).0) m

unfoldable pub start_receiving : Task → Task
start_receiving t = record t {
  state = MessageState.init_receiving;
  receive_buffer_offset = 0;
  data_vector = clear t.data_vector;
}

-- The next piece goes to the socket: what is left of the head, then what is left of the data.
-- Whether the request can be submitted changes nothing.
unfoldable pub submit_send : Option ℕ → Task → Manager → Outcome
submit_send fd t m =
    let size = length t.message in
    let left =
      if ltb 0 t.put_length && leb size t.send_buffer_offset
      then t.put_length + size - t.send_buffer_offset
      else size - t.send_buffer_offset in
    returns
      (record t {
        state = MessageState.sending;
        request = some (record { length = bytes left; fd = fd });
      })
      m

unfoldable pub sent : Option ℕ → Task → Manager → Outcome
sent fd t m =
    if leb (length t.message + t.put_length) t.send_buffer_offset
    then continues (start_receiving t) m
    else submit_send fd t m

unfoldable pub send_failed : Task → Manager → Outcome
send_failed t m =
    continues (start_receiving (record t { failure_code = record t.failure_code { send = true } }))
      m

unfoldable pub disconnected : Task → Manager → Reset
disconnected t m =
    is_reset (record t { connection = none; request = forget_fd t.request })
      (hang_up t.connection m)

-- With what `resignRequest` has given. A message that is given up is not read again.
unfoldable pub with_resigned : Bool → Task → Manager → Resigned → Reset
with_resigned give_up t m (resigned message) = disconnected (record t { message = message }) m
with_resigned give_up t m null_message = if give_up then disconnected t m else lost_message
with_resigned give_up t m resign_throws = reset_throws t

abbrev pub after_reset : Reset → Outcome
after_reset (is_reset t m) = continues t m
after_reset (reset_throws t) = throws
after_reset lost_message = throws

module _ (resigning : Option (Bytes → Resigned)) where
  unfoldable pub resign : Bool → Task → Manager → Reset
  resign give_up t m = elim resigning [
    | none ↦ disconnected t m
    | some f ↦
        if t.failure_code.http then with_resigned give_up t m (f t.message) else disconnected t m
  ]

  unfoldable pub reset : Task → Manager → Bool → Reset
  reset t m give_up = resign give_up (restart give_up t) m

  -- `reset(connectionManager, failures++ > limit); continue;` after a failure is noted.
  unfoldable pub fail : ℕ → Failures → Task → Manager → Outcome
  fail limit code t m =
      let noted = record t { failure_code = code; failures = t.failures + 1 } in
      after_reset (reset noted m (ltb limit t.failures))

  unfoldable pub send_timeout : Task → Manager → Outcome
  send_timeout t m = fail failures_max (record t.failure_code { timeout = true }) t m

  -- The state `Sending`: what became of the last request.
  unfoldable pub send_stage : Request → Task → Manager → Outcome
  send_stage r t m = elim r.length [
    | bytes n ↦
        if ltb 0 n
        then sent r.fd (record t { send_buffer_offset = t.send_buffer_offset + n }) m
        else send_failed t m
    | in_progress ↦ sent r.fd t m
    | try_again ↦ sent r.fd t m
    | canceled ↦ send_timeout t m
    | interrupted ↦ send_timeout t m
    | other_error ↦ send_failed t m
  ]

  unfoldable pub refuse : Task → Manager → Outcome
  refuse t m =
      fail connection_failures_max (record t.failure_code { socket = true })
        (record t { request = forget_fd t.request }) m

  -- With the connection that the manager hands out, or none.
  unfoldable pub connect_result : Option Connection → Task → Manager → Outcome
  connect_result none t m = refuse t m
  connect_result (some c) t m =
      if c.connected
      then submit_send c.sockfd
          (record t { state = MessageState.init_sending; send_buffer_offset = 0 }) m
      else refuse t m

  -- The state `Init`.
  unfoldable pub connect_stage : Env → Task → Manager → Outcome
  connect_stage env t m =
      let (c, m') = get_connection (env.answers t.failures) t.address t.port t.https m in
      connect_result c (record t { connection = c }) m'
