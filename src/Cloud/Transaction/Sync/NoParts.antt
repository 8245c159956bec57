-- ===== src/Cloud/Transaction/Sync/NoParts.antt =====
-- An upload without parts does not end: `putObjectRequestMultiPart` with `processSync`.
use mathlib.Core.List.{Permᴰ}
use myblob.Base.{
  ℕ, zero, suc, ◌≡◌, refl, ◌∙◌, true, none, some, List, [], ◌∷◌, map, length, length-replicate,
  arith,
}
use myblob.Base.Text.{Bytes}
use myblob.Cloud.Transaction.Model.{
  Provider, Callback, upload_messages, Message, UploadRequest, UploadState, MultipartUpload,
  Transaction, Answer, init, new_upload,
}
use myblob.Cloud.Transaction.Requests.{part_count, is_large, put_object_request}
use myblob.Cloud.Transaction.Uploads.{begin_upload}
use myblob.Cloud.Transaction.Process.{submit_round, submit_uploads, submit_upload}
use myblob.Cloud.Transaction.Sync.{Schedule, Served, first, finish_all, sync_round, process_sync}
use myblob.Cloud.Transaction.Sync.Orders.{no_tag, length-Permᴰ, drop-all}
use myblob.Cloud.Transaction.Sync.Rounds.{solo, begin_upload-state, process_sync-more}
use myblob.Cloud.Transaction.Sync.Once.{upload_of, create, first_round}

none_alone : (cs : List (Callback × Answer)) → Permᴰ [] (map first cs) → cs ≡ []
none_alone [] h = refl
none_alone (x ∷ cs) h = absurd (omega (arith, length-Permᴰ h))

begin_upload-tags :
    (p : Provider) (r : UploadRequest) (text : Bytes)
    → r.parts ≡ 0
    → length (begin_upload p r text (new_upload r.parts)).etags ≡ 0
unfolding begin_upload new_upload
begin_upload-tags p r text z = length-replicate r.parts no_tag ∙ z

module _ (p : Provider) (schedule : Schedule) (served : Served schedule) where
  waiting_round :
      (n : ℕ) (ms : List Message) (u : MultipartUpload)
      → u.state ≡ UploadState.processing
      → sync_round p schedule n (solo ms 0 (length ms) u) ≡ (solo ms 0 (length ms) u, [])
  unfolding sync_round submit_round submit_uploads submit_upload finish_all Served
  waiting_round n ms u e = rw (e, drop-all ms, none_alone (schedule n []) (served n [])) refl

  waiting_forever :
      (fuel n : ℕ) (ms : List Message) (u : MultipartUpload)
      → u.state ≡ UploadState.processing
      → process_sync p schedule fuel n (solo ms 0 (length ms) u) ≡ none
  unfolding process_sync
  waiting_forever zero n ms u e = refl
  waiting_forever (suc fuel) n ms u e =
      process_sync-more p schedule served fuel n _ (solo ms 0 (length ms) u)
        (waiting_round n ms u e) refl
      ∙ waiting_forever fuel (suc n) ms u e

  empty_round :
      (n : ℕ) (ms : List Message) (u : MultipartUpload)
      → u.state ≡ UploadState.sending
      → length u.etags ≡ 0
      → sync_round p schedule n (solo ms 0 (length ms) u)
        ≡ (solo ms 0 (length ms) (record u { state = UploadState.processing }), [])
  unfolding sync_round submit_round submit_uploads submit_upload finish_all Served
  empty_round n ms u e l = rw (e, l, drop-all ms, none_alone (schedule n []) (served n [])) refl

  sending_forever :
      (fuel n : ℕ) (ms : List Message) (u : MultipartUpload)
      → u.state ≡ UploadState.sending
      → length u.etags ≡ 0
      → process_sync p schedule fuel n (solo ms 0 (length ms) u) ≡ none
  unfolding process_sync
  sending_forever zero n ms u e l = refl
  sending_forever (suc fuel) n ms u e l =
      process_sync-more p schedule served fuel n _
        (solo ms 0 (length ms) (record u { state = UploadState.processing }))
        (empty_round n ms u e l) refl
      ∙ waiting_forever fuel (suc n) ms (record u { state = UploadState.processing }) refl

  first_forever :
      (fuel : ℕ) (t : Transaction) (ms : List Message) (u : MultipartUpload)
      → u.state ≡ UploadState.sending
      → length u.etags ≡ 0
      → sync_round p schedule 0 t ≡ (solo ms 0 (length ms) u, [])
      → process_sync p schedule fuel 0 t ≡ none
  unfolding process_sync
  first_forever zero t ms u e l f = refl
  first_forever (suc fuel) t ms u e l f =
      process_sync-more p schedule served fuel 0 t (solo ms 0 (length ms) u) f refl
      ∙ sending_forever fuel 1 ms u e l

  -- Where the number of parts is zero in 16 bits and the first request succeeds, `processSync` does
  -- not return, however many rounds it runs.
  pub process_sync-no_parts :
      (fuel : ℕ) (c : Callback) (remote_path object : Bytes) (a : Answer)
      → is_large p object ≡ true
      → part_count (length object) p.multipart_upload_size ≡ 0
      → schedule 0 (some (create p remote_path object) ∷ [])
        ≡ (upload_messages (upload_of p remote_path object), a) ∷ []
      → a.success ≡ true
      → process_sync p schedule fuel 0 (put_object_request (some p) c remote_path object init).1
        ≡ none
  unfolding put_object_request
  process_sync-no_parts fuel c remote_path object a large z e s =
      let r = upload_of p remote_path object in
      let f = first_round p schedule served remote_path object a e in
      rw large (
        first_forever fuel _ (create p remote_path object ∷ [])
          (begin_upload p r a.text (new_upload r.parts)) (begin_upload-state p r a.text)
          (begin_upload-tags p r a.text z) (rw s at f))
