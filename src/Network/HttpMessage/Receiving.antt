-- ===== src/Network/HttpMessage/Receiving.antt =====
-- Receiving: `execute` from the state `InitReceiving`, in src/network/http_message.cpp.
use myblob.Base.{
  ℕ, ◌+◌, ◌-◌, ◌/◌, min, max, Bool, true, ◌&&◌, Option, none, some, [], ltb, leb, if◌then◌else◌,
  take, Result, ok, err,
}
use myblob.Base.Text.{Bytes}
use myblob.Utils.DataVector.{owned, reserve, resize}
use myblob.Network.HttpResponse.{check_success}
use myblob.Network.HttpHelper.{Info}
use myblob.Network.HttpHelper
use myblob.Network.Connection.{Connection}
use myblob.Network.ConnectionManager.{Manager, return_connection}
use myblob.Network.HttpMessage.Task.{
  MessageState, Failures, bytes, in_progress, try_again, canceled, interrupted, other_error,
  Request, Task, failures_max, Env, Outcome, returns, throws, on_ok,
}
use myblob.Network.HttpMessage.Sending.{Resigned, fail}

-- In the states that receive there is a connection: it is set in `Init`, and where it is given back the
-- state becomes another. The local descriptor that the code falls back to is `fd`.
abbrev pub socket_of : Option Connection → Option ℕ → Option ℕ
socket_of none fd = fd
socket_of (some c) fd = c.sockfd

-- A request for `read_size` bytes, for which the vector gets room.
unfoldable pub submit_recv : Env → ℕ → Task → Manager → Outcome
submit_recv env read_size t m = on_ok (resize 0 t.data_vector (t.data_vector.size + read_size)) λ v.
    let asked = record t {
      data_vector = v;
      request = some (record { length = bytes read_size; fd = socket_of t.connection none });
    } in
    if env.recv_submitted
    then returns (record asked { state = MessageState.receiving }) m
    else returns asked m

unfoldable pub receive_more : Env → Task → Manager → Outcome
receive_more env t m =
    let v = t.data_vector in
    if owned v
    then submit_recv env t.chunk_size t m
    else if leb v.capacity t.receive_buffer_offset
    then returns
        (record t {
          failure_code = record t.failure_code { recv = true };
          state = MessageState.aborted;
        })
        m
    else submit_recv env (min t.chunk_size (v.capacity - t.receive_buffer_offset)) t m

-- The reservation once the length is known.
unfoldable pub grow_for : Option Info → Env → Task → Manager → Outcome
grow_for none env t m = receive_more env t m
grow_for (some info) env t m =
    let v = t.data_vector in
    if owned v && ltb v.capacity (v.size + t.chunk_size)
    then on_ok
        (reserve 0 v
          (max (info.length + info.header_length + t.chunk_size) (v.capacity + v.capacity / 2)))
        (λ w. receive_more env (record t { data_vector = w }) m)
    else receive_more env t m

unfoldable pub grow : Env → Task → Manager → Outcome
grow env t m = grow_for t.info env t m

-- The bytes received so far.
abbrev pub received : Task → Bytes
received t = elim t.data_vector.memory [
  | none ↦ []
  | some cells ↦ take t.receive_buffer_offset cells
]

-- The whole response has come.
unfoldable pub complete : Option Info → Task → Manager → Outcome
complete none t m = throws
complete (some info) t m =
    let t' = record t { response = some info; info = none; connection = none } in
    let m' = return_connection t.connection m in
    if check_success info.response.code
    then returns (record t' { state = MessageState.finished }) m'
    else returns
        (record t' {
          failure_code = record t.failure_code { http = true };
          state = MessageState.aborted;
        })
        m'

module _ (resigning : Option (Bytes → Resigned)) where
  -- What `finished` says, with what it leaves in `info`; an error is an exception.
  unfoldable pub judge :
      Env → Result myblob.Network.HttpHelper.Error Bool → Option Info → Task → Manager → Outcome
  judge env (ok whole) info t m =
      if whole then complete info t m else grow env (record t { info = info }) m
  judge env (err e) info t m =
      fail resigning failures_max (record t.failure_code { http = true }) (record t { info = info })
        m

  unfoldable pub examine : Env → Task → Manager → Outcome
  examine env t m =
      let (r, info) = myblob.Network.HttpHelper.finished (received t) t.info in judge env r info t m

  unfoldable pub recv_failed : Failures → Task → Manager → Outcome
  recv_failed code t m = fail resigning failures_max code t m

  -- The state `Receiving`: what became of the last request.
  unfoldable pub receive_stage : Env → Request → Task → Manager → Outcome
  receive_stage env r t m =
      let still_reserved =
        on_ok
          (resize 0 t.data_vector
            (t.receive_buffer_offset + (t.data_vector.size - t.receive_buffer_offset)))
          λ v. grow env (record t { data_vector = v }) m in
      elim r.length [
        | bytes n ↦
            if ltb 0 n
            then on_ok (resize 0 t.data_vector (t.receive_buffer_offset + n)) (λ v.
              examine env
                (record t { data_vector = v; receive_buffer_offset = t.receive_buffer_offset + n })
                m)
            else recv_failed (record t.failure_code { empty = true }) t m
        | in_progress ↦ still_reserved
        | try_again ↦ still_reserved
        | canceled ↦ recv_failed (record t.failure_code { timeout = true }) t m
        | interrupted ↦ recv_failed (record t.failure_code { timeout = true }) t m
        | other_error ↦ recv_failed (record t.failure_code { recv = true }) t m
      ]
