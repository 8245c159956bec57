-- ===== src/Cloud/Transaction/Requests.antt =====
-- The requests that a caller adds: include/cloud/transaction.hpp and src/cloud/transaction.cpp.
use Prim.Native.Nat.{◌/◌, ◌%◌}
use myblob.Base.{
  ℕ, ◌+◌, ◌^◌, Bool, true, false, ◌&&◌, Option, none, some, [], ◌∷◌, ◌++◌, ltb, ◌==◌, if◌then◌else◌,
  length,
}
use myblob.Base.Text.{Bytes}
use myblob.Cloud.Transaction.Model.{
  Provider, Callback, no_callback, upload_messages, Message, UploadRequest, Transaction, new_upload,
}

unfoldable pub push_message : Message → Transaction → Transaction
push_message msg t = record t { messages = t.messages ++ msg ∷ [] }

-- A request that the provider may refuse.
unfoldable pub add_request :
    Option Bytes → Option Bytes → Callback → Transaction → Bool × Transaction
add_request none put_data c t = (false, t)
add_request (some request) put_data c t =
    (true, push_message (record { request = some request; put_data = put_data; callback = c }) t)

-- The number of parts, in 16 bits.
unfoldable pub part_count : ℕ → ℕ → ℕ
part_count size split_size =
    (size / split_size + (if size % split_size == 0 then 0 else 1)) % 2 ^ 16

-- The request is not tested for being null.
unfoldable pub put_object_request_multi_part :
    Provider → Bytes → Bytes → Transaction → Bool × Transaction
put_object_request_multi_part p remote_path object t =
    let parts = part_count (length object) p.multipart_upload_size in
    let upload : UploadRequest = record {
      position = length t.multipart_uploads;
      parts = parts;
      remote_path = remote_path;
      object = object;
    } in
    (
      true,
      push_message
          (record {
            request = p.create_multi_part_request remote_path;
            put_data = none;
            callback = upload_messages upload;
          })
          (record t { multipart_uploads = t.multipart_uploads ++ new_upload parts ∷ [] }),
    )

abbrev pub is_large : Provider → Bytes → Bool
is_large p object = ltb 0 p.multipart_upload_size && ltb p.multipart_upload_size (length object)

module _ (provider : Option Provider) where
  unfoldable pub get_object_request : Callback → Bytes → ℕ × ℕ → Transaction → Bool × Transaction
  get_object_request c remote_path range t = elim provider [
    | none ↦ (false, t)
    | some p ↦ add_request (p.get_request remote_path range) none c t
  ]

  unfoldable pub delete_object_request : Callback → Bytes → Transaction → Bool × Transaction
  delete_object_request c remote_path t = elim provider [
    | none ↦ (false, t)
    | some p ↦ add_request (p.delete_request remote_path) none c t
  ]

  -- Without a callback, an object that needs parts is refused.
  unfoldable pub put_object_request_plain : Bytes → Bytes → Transaction → Bool × Transaction
  put_object_request_plain remote_path object t = elim provider [
    | none ↦ (false, t)
    | some p ↦
        if is_large p object
        then (false, t)
        else add_request (p.put_request remote_path object) (some object) no_callback t
  ]

  unfoldable pub put_object_request : Callback → Bytes → Bytes → Transaction → Bool × Transaction
  put_object_request c remote_path object t = elim provider [
    | none ↦ (false, t)
    | some p ↦
        if is_large p object
        then put_object_request_multi_part p remote_path object t
        else add_request (p.put_request remote_path object) (some object) c t
  ]
