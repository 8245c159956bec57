-- ===== src/Cloud/Transaction/Process/Rollback.antt =====
-- Messages are handed over once, and what a queue without room leaves: `processAsync` in
-- src/cloud/transaction.cpp.
use myblob.Base.{
  ℕ, zero, suc, ◌≤◌, ◌≡◌, refl, ap, sym, Bool, true, false, Option, none, some, List, [], ◌∷◌, ◌++◌,
  map, length, drop, replicate, arith,
}
use myblob.Base.Text.{Bytes}
use myblob.Cloud.Transaction.Model.{
  Message, UploadState, MultipartUpload, Transaction, Provider, new_upload, init,
}
use myblob.Cloud.Transaction.Requests.{part_count, put_object_request_multi_part, push_message}
use myblob.Cloud.Transaction.Process.{
  slot_at, submit_upload, submit_uploads, submit_round, roll_back_state, roll_back, hand_over,
  process_async,
}

drop-past {ℓ} : {A : Type ℓ} (n : ℕ) (xs : List A) → length xs ≤ n → drop n xs ≡ []
drop-past zero [] h = refl
drop-past zero (x ∷ xs) h = absurd (omega arith)
drop-past (suc n) [] h = refl
drop-past (suc n) (x ∷ xs) h = drop-past n xs (omega arith)

submit_upload-again :
    (s : UploadState) (u : MultipartUpload)
    → u.state ≡ s
    → submit_upload (submit_upload s u).1.state (submit_upload s u).1 ≡ ([], (submit_upload s u).1)
unfolding submit_upload
submit_upload-again UploadState.sending u e = refl
submit_upload-again UploadState.validating u e = refl
submit_upload-again UploadState.default u e = rw e refl
submit_upload-again UploadState.processing u e = rw e refl
submit_upload-again UploadState.aborted u e = rw e refl

submit_uploads-again :
    (us : List MultipartUpload) → submit_uploads (submit_uploads us).1 ≡ ([], (submit_uploads us).1)
unfolding submit_uploads
submit_uploads-again [] = refl
submit_uploads-again (u ∷ us) =
    let e = submit_upload-again u.state u refl in let f = submit_uploads-again us in rw (e, f) refl

-- Whatever a round has submitted, a second round submits nothing more and changes nothing.
pub submit_round-twice :
    (t : Transaction) → submit_round (submit_round t).1 ≡ ([], (submit_round t).1)
unfolding submit_round
submit_round-twice t =
    rw
      (
        submit_uploads-again t.multipart_uploads,
        drop-past (length t.messages) t.messages (omega arith),
      )
      refl

-- The states that a failed hand-over restores.
unfoldable pub Steady : UploadState → Type 0
Steady UploadState.default = ⊥
Steady UploadState.processing = ⊥
Steady _ = Unit {0}

unfoldable pub AllSteady : List MultipartUpload → Type 0
AllSteady [] = Unit {0}
AllSteady (u ∷ us) = Steady u.state × AllSteady us

restored_upload :
    (s : UploadState) (u : MultipartUpload)
    → u.state ≡ s
    → Steady s
    → roll_back (submit_upload s u).1 ≡ u
unfolding submit_upload roll_back roll_back_state Steady
restored_upload UploadState.sending u e h =
    ap {B = MultipartUpload} (λ s. record u { state = s }) (sym e)
restored_upload UploadState.validating u e h =
    ap {B = MultipartUpload} (λ s. record u { state = s }) (sym e)
restored_upload UploadState.default u e h = absurd h
restored_upload UploadState.processing u e h = absurd h
restored_upload UploadState.aborted u e h = rw e refl

restored_uploads :
    (us : List MultipartUpload) → AllSteady us → map roll_back (submit_uploads us).1 ≡ us
unfolding submit_uploads AllSteady
restored_uploads [] h = refl
restored_uploads (u ∷ us) h = rw (restored_upload u.state u refl h.0, restored_uploads us h.1) refl

abbrev no_tag : Bytes
no_tag = []

abbrev pub full : List (Option Message) → Bool
full ms = false

-- Where there is something to submit and the queue has no room, nothing is handed over and the
-- transaction is as it was, provided that no upload is in the state `Default` or `Processing`.
pub process_async-full :
    (t : Transaction) (m : Option Message) (ms : List (Option Message))
    → (submit_round t).0 ≡ m ∷ ms
    → AllSteady t.multipart_uploads
    → process_async full t ≡ (false, [], t)
unfolding process_async hand_over submit_round
process_async-full t m ms e s = rw (e, restored_uploads t.multipart_uploads s) refl

abbrev pub roomy : List (Option Message) → Bool
roomy ms = true

empty_slot :
    (n : ℕ) (m : Message)
    → some m ∷ slot_at (none ∷ replicate n none) (length (replicate n no_tag)) ∷ []
      ≡ some m ∷ none ∷ []
empty_slot zero m = refl
empty_slot (suc n) m = empty_slot n m

-- The first request of an upload is added, the queue has no room, and then it has: the second call
-- hands over the request and a null pointer.
pub process_async-null :
    (p : Provider) (remote_path object : Bytes)
    → let t = (put_object_request_multi_part p remote_path object init).1 in
      ((process_async full t).0 ≡ false)
      × ((process_async roomy (process_async full t).2).1 ≡ map some t.messages ++ none ∷ [])
unfolding process_async hand_over submit_round submit_uploads submit_upload roll_back
    roll_back_state put_object_request_multi_part push_message new_upload init
process_async-null p remote_path object =
    (refl, empty_slot (part_count (length object) p.multipart_upload_size) _)
