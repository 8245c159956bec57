-- ===== src/Cloud/Transaction/Sync/Rounds.antt =====
-- The rounds of an upload in parts: `processSync` in src/cloud/transaction.cpp.
use myblob.Base.{
  ℕ, zero, suc, ◌<◌, ◌≡◌, refl, ap, sym, ◌∙◌, ◌⊎◌, inl, inr, Bool, true, false, Option, none, some,
  List, [], ◌∷◌, map, append-nil, ◌==◌, if◌then◌else◌, length, set, length-set, replicate,
  length-replicate, arith,
}
use myblob.Base.Text.{Bytes}
use myblob.Cloud.Transaction.Model.{
  Provider, Callback, finish_multipart, complete_finished, abort_finished, Message, UploadRequest,
  UploadState, MultipartUpload, Transaction, Answer, Notice, uploaded, cancelled, new_upload,
}
use myblob.Cloud.Transaction.Uploads.{
  note_part, finish_part, on_finished, update_upload, part_message, part_messages, part_rounds,
  write_messages, begin_upload,
}
use myblob.Cloud.Transaction.Uploads.Finish.{
  Answers, finish_parts, all_success, ending, count_down-etags, finish_parts-Ended,
}
use myblob.Cloud.Transaction.Uploads.Tags.{length-note_part}
use myblob.Cloud.Transaction.Uploads.Parts.{listed, submit_upload-begin_upload, length-listed}
use myblob.Cloud.Provider.{get_upload_id}
use myblob.Cloud.Transaction.Process.{slot_at, submit_round, submit_uploads, submit_upload}
use myblob.Cloud.Transaction.Sync.Orders.{
  All, length-Permᴰ, Permᴰ-All, length-map, no_tag, no_slot, alone, slot_at-set, drop-all,
}
use myblob.Cloud.Transaction.Sync.{
  Schedule, Served, first, callback_of, prepend, finish_all, sync_round, process_sync,
}

-- The callback of a part of the upload.
abbrev Part : UploadRequest → Callback → Type 0
Part r c = (i : ℕ) × (c ≡ finish_multipart r i)

abbrev pub solo : List Message → ℕ → ℕ → MultipartUpload → Transaction
solo ms done counter u = record {
  messages = ms;
  multipart_uploads = u ∷ [];
  completed_multiparts = done;
  message_counter = counter;
}

module _ (p : Provider) (r : UploadRequest) where
  pub update_first :
      (i : ℕ) (f : MultipartUpload → MultipartUpload) (u : MultipartUpload)
      → i ≡ 0
      → update_upload p i f (u ∷ []) ≡ f u ∷ []
  unfolding update_upload
  update_first zero f u e = refl
  update_first (suc i) f u e = absurd (omega arith)

  on_part :
      (c : Callback) (i : ℕ) (a : Answer) (ms : List Message) (done counter : ℕ)
      (u : MultipartUpload)
      → r.position ≡ 0
      → c ≡ finish_multipart r i
      → on_finished p c a (solo ms done counter u)
        ≡ (solo ms done counter (finish_part p r i a u), [])
  unfolding on_finished
  on_part c i a ms done counter u e f =
      rw (f, update_first r.position (finish_part p r i a) u e) refl

  -- The parts' callbacks, in whatever order, change the upload only.
  finish_all-parts :
      (cs : List (Callback × Answer)) (ms : List Message) (done counter : ℕ) (u : MultipartUpload)
      → r.position ≡ 0
      → All (Part r) (map first cs)
      → (answers : Answers) × (length answers ≡ length cs)
        × (finish_all p cs (solo ms done counter u)
            ≡ (solo ms done counter (finish_parts p r answers u), []))
  unfolding finish_all finish_parts All
  finish_all-parts [] ms done counter u e h = ([], refl, refl)
  finish_all-parts ((c, a) ∷ cs) ms done counter u e h =
      let (i, f) = h.0 in
      let (answers, l, g) = finish_all-parts cs ms done counter (finish_part p r i a u) e h.1 in
      ((i, a) ∷ answers, ap suc l, rw (on_part c i a ms done counter u e f, g) refl)

prepend-nothing : (p : Provider) (o : Option (Transaction × List Notice)) → prepend p [] o ≡ o
prepend-nothing p none = refl
prepend-nothing p (some x) = refl

length-finish_parts :
    (p : Provider) (r : UploadRequest) (answers : Answers) (u : MultipartUpload)
    → length (finish_parts p r answers u).etags ≡ length u.etags
unfolding finish_parts finish_part
length-finish_parts p r [] u = refl
length-finish_parts p r ((i, a) ∷ answers) u =
    length-finish_parts p r answers (finish_part p r i a u)
    ∙ rw (count_down-etags p r (note_part p i a u)) (length-note_part p r i a u)

length-write_messages :
    (p : Provider) (ms : List Message) (i : ℕ) (slots : List (Option Message))
    → length (write_messages p ms i slots) ≡ length slots
unfolding write_messages
length-write_messages p [] i slots = refl
length-write_messages p (m ∷ ms) i slots =
    length-write_messages p ms (suc i) (set slots i (some m)) ∙ length-set slots i (some m)

parts-Part :
    (p : Provider) (r : UploadRequest) (id : Bytes) (i left : ℕ) (rest : Bytes)
    → All (Part r) (map callback_of (map some (listed p r id i left rest)))
unfolding listed part_message All
parts-Part p r id i zero rest = tt
parts-Part p r id i (suc left) rest = ((i, refl), parts-Part p r id (suc i) left _)

ending-callback :
    (p : Provider) (r : UploadRequest) (b : Bool) (id : Bytes) (etags : List Bytes)
    → ((ending p r b id etags).callback ≡ complete_finished r)
      ⊎ ((ending p r b id etags).callback ≡ abort_finished r)
unfolding ending
ending-callback p r true id etags = inl refl
ending-callback p r false id etags = inr refl

pub begin_upload-state :
    (p : Provider) (r : UploadRequest) (text : Bytes)
    → (begin_upload p r text (new_upload r.parts)).state ≡ UploadState.sending
unfolding begin_upload
begin_upload-state p r text = refl

begin_upload-outstanding :
    (p : Provider) (r : UploadRequest) (text : Bytes)
    → (begin_upload p r text (new_upload r.parts)).outstanding ≡ r.parts
unfolding begin_upload new_upload
begin_upload-outstanding p r text = refl

-- After the last part, the message that is to end the upload is at its place.
ready :
    (p : Provider) (r : UploadRequest) (answers : Answers) (text : Bytes)
    → length answers ≡ r.parts
    → 0 < r.parts
    → (m : Message) × (let v =
          finish_parts p r answers (record (begin_upload p r text (new_upload r.parts)) {
            state = UploadState.processing;
          }) in
        (slot_at v.messages (length v.etags) ≡ some m))
      × ((m.callback ≡ complete_finished r) ⊎ (m.callback ≡ abort_finished r))
unfolding begin_upload new_upload
ready p r answers text l h =
    let u : MultipartUpload = record (begin_upload p r text (new_upload r.parts)) {
      state = UploadState.processing;
    } in
    let d = finish_parts-Ended p r answers u l h in
    let e : length (finish_parts p r answers u).etags ≡ r.parts =
      length-finish_parts p r answers u ∙ length-replicate r.parts no_tag in
    let w =
      length-write_messages p (part_messages p part_rounds r (get_upload_id text) 1 r.object) 0
        (replicate (suc r.parts) none) in
    let m =
      ending p r (all_success answers) (get_upload_id text) (finish_parts p r answers u).etags in
    (
      m,
      rw (d.messages, e)
          (slot_at-set u.messages r.parts (some m)
            (omega (arith, w, length-replicate r.parts no_slot))),
      ending-callback p r (all_success answers) (get_upload_id text)
          (finish_parts p r answers u).etags,
    )

module _ (p : Provider) (schedule : Schedule) (served : Served schedule) where
  -- A round that leaves uploads
  pub process_sync-more :
      (fuel n : ℕ) (t t' : Transaction)
      → sync_round p schedule n t ≡ (t', [])
      → length t'.multipart_uploads ≡ suc t'.completed_multiparts
      → process_sync p schedule (suc fuel) n t ≡ process_sync p schedule fuel (suc n) t'
  unfolding process_sync
  process_sync-more fuel n t t' e l =
      let b : (length t'.multipart_uploads == t'.completed_multiparts) ≡ false = ground arith in
      rw (e, b) (prepend-nothing p (process_sync p schedule fuel (suc n) t'))

  pub process_sync-done :
      (fuel n : ℕ) (t t' : Transaction) (ns : List Notice)
      → sync_round p schedule n t ≡ (t', ns)
      → length t'.multipart_uploads ≡ t'.completed_multiparts
      → process_sync p schedule (suc fuel) n t ≡ some (t', ns)
  unfolding process_sync
  process_sync-done fuel n t t' ns e l =
      let b : (length t'.multipart_uploads == t'.completed_multiparts) ≡ true = ground arith in
      rw (e, b) refl

  -- The round that ends the upload.
  last_round :
      (n : ℕ) (ms : List Message) (u : MultipartUpload) (r : UploadRequest) (m : Message)
      → u.state ≡ UploadState.validating
      → slot_at u.messages (length u.etags) ≡ some m
      → (m.callback ≡ complete_finished r) ⊎ (m.callback ≡ abort_finished r)
      → (notice : Notice) × (sync_round p schedule n (solo ms 0 (length ms) u)
          ≡ (solo ms 1 (length ms) (record u { state = UploadState.default }), notice ∷ []))
  unfolding sync_round submit_round submit_uploads submit_upload finish_all on_finished Served
  last_round n ms u r m e s c =
      let (a, f) = alone m.callback (schedule n (some m ∷ [])) (served n (some m ∷ [])) in
      elim c [
        | inl g ↦ (
          if a.success then uploaded r.position else cancelled r.position,
          rw (e, drop-all ms, s, f, g) refl,
        )
        | inr g ↦ (cancelled r.position, rw (e, drop-all ms, s, f, g) refl)
      ]

  going :
      (u : MultipartUpload)
      → u.state ≡ UploadState.sending
      → (submit_upload u.state u).1 ≡ record u { state = UploadState.processing }
  unfolding submit_upload
  going u e = rw e refl

  -- The round of the parts.
  parts_round :
      (n : ℕ) (ms : List Message) (u : MultipartUpload) (r : UploadRequest) (parts : List Message)
      → r.position ≡ 0
      → u.state ≡ UploadState.sending
      → (submit_upload u.state u).0 ≡ map some parts
      → All (Part r) (map callback_of (map some parts))
      → (answers : Answers) × (length answers ≡ length parts)
        × (sync_round p schedule n (solo ms 0 (length ms) u) ≡ (
          solo ms 0
              (length ms)
              (finish_parts p r answers (record u { state = UploadState.processing })),
          [],
        ))
  unfolding sync_round submit_round submit_uploads Served
  parts_round n ms u r parts z e s h =
      let sent = served n (map some parts) in
      let q : (submit_upload u.state u).1 ≡ record u { state = UploadState.processing } =
        going u e in
      let (answers, l, f) =
        finish_all-parts p r (schedule n (map some parts)) ms 0 (length ms)
          (record u { state = UploadState.processing }) z (Permᴰ-All (Part r) sent h) in
      (
        answers,
        l
            ∙ sym (length-map first (schedule n (map some parts)))
            ∙ sym (length-Permᴰ sent)
            ∙ length-map callback_of (map some parts)
            ∙ length-map some parts,
        rw (drop-all ms, s, q, append-nil (map some parts)) f,
      )

  -- The rounds after the first request has succeeded.
  pub begun :
      (ms : List Message) (r : UploadRequest) (text : Bytes)
      → r.position ≡ 0
      → 0 < r.parts
      → r.parts < 65535
      → (t : Transaction) × (notice : Notice) × (process_sync p schedule 2 1
            (solo ms 0 (length ms) (begin_upload p r text (new_upload r.parts)))
          ≡ some (t, notice ∷ []))
  begun ms r text z h few =
      let u = begin_upload p r text (new_upload r.parts) in
      let parts = listed p r (get_upload_id text) 1 r.parts r.object in
      let (answers, l, f) =
        parts_round 1 ms u r parts z (begin_upload-state p r text)
          (submit_upload-begin_upload p r text few)
          (parts-Part p r (get_upload_id text) 1 r.parts r.object) in
      let v = finish_parts p r answers (record u { state = UploadState.processing }) in
      let o = begin_upload-outstanding p r text in
      let k = l ∙ length-listed p r (get_upload_id text) 1 r.parts r.object in
      let (m, s, c) = ready p r answers text k h in
      let d =
        finish_parts-Ended p r answers (record u { state = UploadState.processing }) (k ∙ sym o)
          (rw o h) in
      let (notice, g) = last_round 2 ms v r m d.state s c in
      (
        _,
        notice,
        process_sync-more 1 1 _ (solo ms 0 (length ms) v) f refl
            ∙ process_sync-done 0 2 (solo ms 0 (length ms) v) _ (notice ∷ []) g refl,
      )
