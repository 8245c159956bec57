-- ===== src/Cloud/Transaction/Process.antt =====
-- Which messages are handed to the scheduler: `processSync` and `processAsync` in
-- src/cloud/transaction.cpp. `none` among the messages is a null pointer.
pub mod Rollback
use myblob.Base.{
  ℕ, zero, suc, ◌+◌, Bool, true, false, Option, none, some, List, [], ◌∷◌, ◌++◌, map, ◌==◌,
  if◌then◌else◌, length, take, drop, get_elem?,
}
use myblob.Cloud.Transaction.Model.{Message, UploadState, MultipartUpload, Transaction}

-- `messages[i]`.
abbrev pub slot_at : List (Option Message) → ℕ → Option Message
slot_at slots i = elim (get_elem? slots i) [ none ↦ none | some m ↦ m ]

-- What is submitted of an upload, and its state after that.
unfoldable pub submit_upload :
    UploadState → MultipartUpload → List (Option Message) × MultipartUpload
submit_upload UploadState.sending u =
    (take (length u.etags) u.messages, record u { state = UploadState.processing })
submit_upload UploadState.validating u =
    (slot_at u.messages (length u.etags) ∷ [], record u { state = UploadState.default })
submit_upload _ u = ([], u)

unfoldable pub submit_uploads : List MultipartUpload → List (Option Message) × List MultipartUpload
submit_uploads [] = ([], [])
submit_uploads (u ∷ us) =
    let (ms, u') = submit_upload u.state u in
    let (rest, us') = submit_uploads us in (ms ++ rest, u' ∷ us')

-- One round: the messages that are new, and those of the uploads that are due.
unfoldable pub submit_round : Transaction → List (Option Message) × Transaction
submit_round t =
    let (parts, us) = submit_uploads t.multipart_uploads in
    (
      map some (drop t.message_counter t.messages) ++ parts,
      record t { message_counter = length t.messages; multipart_uploads = us },
    )

-- What the code makes of the states where the queue has no room.
unfoldable pub roll_back_state : UploadState → UploadState
roll_back_state UploadState.processing = UploadState.sending
roll_back_state UploadState.default = UploadState.validating
roll_back_state s = s

unfoldable pub roll_back : MultipartUpload → MultipartUpload
roll_back u = record u { state = roll_back_state u.state }

-- What becomes of the messages of a round that leads to `t'`: the result, the messages that are
-- handed over, and the transaction. `sent` says whether the group's queue takes all the messages.
unfoldable pub hand_over :
    (List (Option Message) → Bool)
    → Transaction
    → List (Option Message)
    → Transaction
    → Bool × List (Option Message) × Transaction
hand_over sent t [] t' = (true, [], t')
hand_over sent t (m ∷ ms) t' = if sent (m ∷ ms) then (true, m ∷ ms, t') else (
  false,
  [],
  record t' {
    message_counter = t.message_counter;
    multipart_uploads = map roll_back t'.multipart_uploads;
  },
)

unfoldable pub process_async :
    (List (Option Message) → Bool) → Transaction → Bool × List (Option Message) × Transaction
process_async sent t = let (ms, t') = submit_round t in hand_over sent t ms t'
