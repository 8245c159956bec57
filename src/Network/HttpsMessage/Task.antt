-- ===== src/Network/HttpsMessage/Task.antt =====
-- The task over TLS, and what moves its bytes: include/network/https_message.hpp and
-- src/network/https_message.cpp. What the TLS layer answers is the parameter `TlsAnswers`, by the
-- number of calls of it so far.
use myblob.Base.{
  ℕ, ◌+◌, ◌-◌, ◌/◌, min, max, Bool, true, ◌&&◌, Option, none, some, List, ◌++◌, ltb, leb,
  if◌then◌else◌, length, take, drop, Result, ok, err,
}
use myblob.Base.Text.{Bytes}
use myblob.Utils.DataVector.{DataVector, NotOwned, owned, reserve, resize}
use myblob.Network.HttpHelper.{Info}
use myblob.Network.ConnectionManager.{Manager}
use myblob.Network.HttpMessage.Task.{MessageState, Task}
use myblob.Network.HttpMessage.Sending.{start_receiving}

-- `TLSConnection::Progress`.
pub data Progress : Type 0 where
  init sending_init sending receiving_init receiving in_progress finished aborted : Progress

-- Whether the layer can be set up, and what its calls give: for a length, the progress with the
-- number of bytes sent, or with the bytes received.
pub record TlsAnswers : Type 0 where
  pub set_up : ℕ → Bool
  pub connect : ℕ → Progress
  pub send : ℕ → ℕ → Progress × ℕ
  pub recv : ℕ → ℕ → Progress × Bytes
  pub shutdown : ℕ → Progress

-- The task of the base class, whether there is a TLS layer, and the calls of it so far.
pub record TlsTask : Type 0 where
  pub base : Task
  pub tls_layer : Bool
  pub fd : Option ℕ
  pub calls : ℕ

-- What a round does: it goes on with the next one, from inside the `try` block of its own or not,
-- returns, lets an exception escape, or dereferences a null pointer. An exception leaves the task as
-- it is by then.
pub data TlsOutcome : Type 0 where
  continues : TlsTask → Manager → TlsOutcome
  tries : TlsTask → Manager → TlsOutcome
  returns : TlsTask → Manager → TlsOutcome
  throws : TlsTask → Manager → TlsOutcome
  crashes : TlsOutcome

abbrev pub or_throws {ℓ} :
    {A : Type ℓ} → Result NotOwned A → TlsTask → Manager → (A → TlsOutcome) → TlsOutcome
or_throws (ok a) t m f = f a
or_throws (err e) t m f = throws t m

abbrev pub with_state : MessageState → TlsTask → TlsTask
with_state state t = record t { base = record t.base { state = state } }

-- Bytes written to memory from an offset on.
unfoldable pub write_at : ℕ → Bytes → Option (List ℕ) → Option (List ℕ)
write_at offset text none = none
write_at offset text (some cells) =
    some (take offset cells ++ (text ++ drop (offset + length text) cells))

-- What is left of the head, then what is left of the data.
unfoldable pub piece_length : Task → ℕ
piece_length b =
    let size = length b.message in
    if ltb 0 b.put_length && leb size b.send_buffer_offset
    then b.put_length + size - b.send_buffer_offset
    else size - b.send_buffer_offset

unfoldable pub sent_piece : ℕ → TlsTask → Manager → TlsOutcome
sent_piece n t m =
    let b = record t.base { send_buffer_offset = t.base.send_buffer_offset + n } in
    continues
      (record t {
        base =
            if leb (length b.message + b.put_length) b.send_buffer_offset
            then start_receiving b
            else b;
      })
      m

-- The vector with room for the next bytes: the task and how much room there is, or the end.
unfoldable pub read_room : ℕ → TlsTask → Manager → (ℕ → TlsTask → TlsOutcome) → TlsOutcome
read_room read_size t m next =
    or_throws (resize 0 t.base.data_vector (t.base.data_vector.size + read_size)) t m
      λ v. next read_size (record t { base = record t.base { data_vector = v } })

unfoldable pub grown : Option Info → Task → Result NotOwned (DataVector ℕ)
grown none b = ok b.data_vector
grown (some info) b =
    let v = b.data_vector in
    if ltb v.capacity (v.size + b.chunk_size)
    then reserve 0 v
        (max (info.length + info.header_length + b.chunk_size) (v.capacity + v.capacity / 2))
    else ok v

unfoldable pub more_room : TlsTask → Manager → (ℕ → TlsTask → TlsOutcome) → TlsOutcome
more_room t m next =
    let b = t.base in
    let v = b.data_vector in
    if owned v
    then or_throws (grown b.info b) t m
        (λ w. read_room b.chunk_size (record t { base = record b { data_vector = w } }) m next)
    else if leb v.capacity b.receive_buffer_offset
    then returns
        (record t {
          base = record b {
            failure_code = record b.failure_code { recv = true };
            state = MessageState.aborted;
          };
        })
        m
    else read_room (min b.chunk_size (v.capacity - b.receive_buffer_offset)) t m next
