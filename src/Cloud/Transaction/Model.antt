-- ===== src/Cloud/Transaction/Model.antt =====
-- What a transaction holds: include/cloud/transaction.hpp, and what it asks of a provider, of the
-- functions of include/cloud/provider.hpp.
use myblob.Base.{ℕ, suc, Bool, Option, none, List, [], replicate}
use myblob.Base.Text.{Bytes}

-- A provider's functions. `none` is a null pointer: no valid keys, for example.
pub record Provider : Type 0 where
  pub multipart_upload_size : ℕ
  pub get_request : Bytes → ℕ × ℕ → Option Bytes
  pub put_request : Bytes → Bytes → Option Bytes
  pub delete_request : Bytes → Option Bytes
  pub create_multi_part_request : Bytes → Option Bytes
  pub put_request_generic : Bytes → Bytes → ℕ → Bytes → Option Bytes
  pub complete_multi_part_request : Bytes → Bytes → List Bytes → Option Bytes × Bytes
  pub delete_request_generic : Bytes → Bytes → Option Bytes

-- What a message calls once it has finished. An upload is named by its place; `parts` is what the
-- functions for uploads capture of the request for it.
pub record UploadRequest : Type 0 where
  pub position : ℕ
  pub parts : ℕ
  pub remote_path : Bytes
  pub object : Bytes

pub data Callback : Type 0 where
  no_callback : Callback
  user_callback : Callback
  upload_messages : UploadRequest → Callback
  finish_multipart : UploadRequest → ℕ → Callback
  complete_finished : UploadRequest → Callback
  abort_finished : UploadRequest → Callback

-- A message with its request, the body that follows it, and its callback.
pub record Message : Type 0 where
  pub request : Option Bytes
  pub put_data : Option Bytes
  pub callback : Callback

pub data UploadState : Type 0 where
  default : UploadState
  sending : UploadState
  processing : UploadState
  validating : UploadState
  aborted : UploadState

pub record MultipartUpload : Type 0 where
  pub upload_id : Bytes
  pub messages : List (Option Message)
  pub etags : List Bytes
  pub outstanding : ℕ
  pub state : UploadState
  pub error_message_id : ℕ

-- `MultipartUpload(parts)`.
unfoldable pub new_upload : ℕ → MultipartUpload
new_upload parts = record {
  upload_id = [];
  messages = replicate (suc parts) none;
  etags = replicate parts [];
  outstanding = parts;
  state = UploadState.default;
  error_message_id = 0;
}

pub record Transaction : Type 0 where
  pub messages : List Message
  pub multipart_uploads : List MultipartUpload
  pub completed_multiparts : ℕ
  pub message_counter : ℕ

unfoldable pub init : Transaction
init = record {
  messages = [];
  multipart_uploads = [];
  completed_multiparts = 0;
  message_counter = 0;
}

-- What the callbacks read of a result: whether it is a success, the received bytes, and where the
-- content begins in them.
pub record Answer : Type 0 where
  pub success : Bool
  pub text : Bytes
  pub offset : ℕ

-- What the caller's callback is called with: whether the state is `Cancelled`, and whether the
-- first request was a success.
pub data Notice : Type 0 where
  initiate_failed : ℕ → Notice
  uploaded : ℕ → Notice
  cancelled : ℕ → Notice
