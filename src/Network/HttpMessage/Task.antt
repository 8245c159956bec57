-- ===== src/Network/HttpMessage/Task.antt =====
-- What the state machine works on: include/network/message_task.hpp, message_state.hpp,
-- message_failure_code.hpp, http_message.hpp and the result in message_result.hpp.
use myblob.Base.{ℕ, Bool, false, not, ◌||◌, Option, none, some, Result, ok, err}
use myblob.Base.Text.{Bytes}
use myblob.Utils.DataVector.{DataVector, NotOwned}
use myblob.Network.HttpHelper.{Info}
use myblob.Network.Connection.{Connection, Answers}
use myblob.Network.ConnectionManager.{Manager}

pub data MessageState : Type 0 where
  init : MessageState
  tls_handshake : MessageState
  init_sending : MessageState
  sending : MessageState
  init_receiving : MessageState
  receiving : MessageState
  tls_shutdown : MessageState
  finished : MessageState
  aborted : MessageState
  cancelled : MessageState

-- The bits of `MessageFailureCode`.
pub record Failures : Type 0 where
  pub socket : Bool
  pub empty : Bool
  pub timeout : Bool
  pub send : Bool
  pub recv : Bool
  pub http : Bool
  pub tls : Bool

abbrev pub none_failed : Failures → Bool
none_failed f = not (f.socket || f.empty || f.timeout || f.send || f.recv || f.http || f.tls)

-- The `length` of a request: a count of bytes, or the error number that the kernel returned, as far
-- as the code tells them apart.
pub data Length : Type 0 where
  bytes : ℕ → Length
  in_progress : Length
  try_again : Length
  canceled : Length
  interrupted : Length
  other_error : Length

-- `fd` is `none` for -1.
pub record Request : Type 0 where
  pub length : Length
  pub fd : Option ℕ

-- The task with the message and the result it refers to.
pub record Task : Type 0 where
  pub address : Bytes
  pub port : ℕ
  pub https : Bool
  pub message : Bytes
  pub put_length : ℕ
  pub state : MessageState
  pub failure_code : Failures
  pub data_vector : DataVector ℕ
  pub response : Option Info
  pub request : Option Request
  pub send_buffer_offset : ℕ
  pub receive_buffer_offset : ℕ
  pub chunk_size : ℕ
  pub failures : ℕ
  pub info : Option Info
  pub connection : Option Connection

abbrev pub failures_max : ℕ
failures_max = 32

abbrev pub connection_failures_max : ℕ
connection_failures_max = 4

-- What the system answers: to the attempts to connect, by the failures so far, and whether a
-- receive request can be submitted.
pub record Env : Type 0 where
  pub answers : ℕ → Answers
  pub recv_submitted : Bool

-- What a round of the loop does: it continues, returns, or lets an exception escape.
pub data Outcome : Type 0 where
  continues : Task → Manager → Outcome
  returns : Task → Manager → Outcome
  throws : Outcome

abbrev pub on_ok {ℓ} : {A : Type ℓ} → Result NotOwned A → (A → Outcome) → Outcome
on_ok (ok a) f = f a
on_ok (err e) f = throws

abbrev pub forget_fd : Option Request → Option Request
forget_fd none = none
forget_fd (some r) = some (record r { fd = none })

-- `MessageResult::success`.
unfoldable pub success : Task → Bool
success t = elim t.state [ MessageState.finished ↦ none_failed t.failure_code | _ ↦ false ]
