-- ===== src/Cloud/Transaction/Tests.antt =====
-- Examples for transactions: a small provider, objects in one to three parts.
use mathlib.Core.Path.{subst}
use mathlib.Core.List.Permᴰ
use mathlib.Core.List.{Permᴰ}
use myblob.Base.{
  ℕ, ◌+◌, ◌<◌, ◌≤◌, ◌≡◌, refl, ap, true, false, Option, none, some, List, [], ◌∷◌, ◌++◌, map,
  length, replicate, length-replicate, lt→ltb, get_or, get_elem?, arith,
}
use myblob.Base.Text.{Bytes, codes}
use myblob.Cloud.Provider.{get_etag}
use myblob.Cloud.Transaction.Model.{
  Provider, user_callback, no_callback, Message, UploadRequest, UploadState, Transaction, Answer,
  init, new_upload,
}
use myblob.Cloud.Transaction.Requests.{
  is_large, put_object_request, put_object_request_multi_part, part_count,
}
use myblob.Cloud.Transaction.Uploads.{part_message, part_messages, part_rounds}
use myblob.Cloud.Transaction.Uploads.Parts.{bodies, slice, part_messages-object}
use myblob.Cloud.Transaction.Uploads.Sizes.{part_count-slice}
use myblob.Cloud.Transaction.Uploads.Finish.{finish_parts, all_success, Ended, finish_parts-Ended}
use myblob.Cloud.Transaction.Uploads.Tags.{Without, finish_parts-tag}
use myblob.Cloud.Transaction.Process.{submit_upload, submit_uploads, submit_round, process_async}
use myblob.Cloud.Transaction.Process.Rollback.{
  full, roomy, AllSteady, Steady, submit_round-twice, process_async-full, process_async-null,
}
use myblob.Cloud.Transaction.Sync.{Schedule, Served, first, callback_of, process_sync}
use myblob.Cloud.Transaction.Sync.Once.{upload_of}
use myblob.Cloud.Transaction.Sync.NoParts.{process_sync-no_parts}

abbrev small : ℕ → Provider
small size = record {
  multipart_upload_size = size;
  get_request = λ path range. some path;
  put_request = λ path object. some path;
  delete_request = λ path. some path;
  create_multi_part_request = λ path. some path;
  put_request_generic = λ path object part id. some (path ++ part ∷ id);
  complete_multi_part_request = λ path id tags. (some (path ++ id), codes "done");
  delete_request_generic = λ path id. some (path ++ id);
}

abbrev object : Bytes
object = codes "abcde"

abbrev upload : UploadRequest
upload = upload_of (small 2) (codes "/o") object

abbrev good : Answer
good = record { success = true; text = codes "ETag: \"t\""; offset = 9 }

abbrev bad : Answer
bad = record { success = false; text = []; offset = 0 }

part_messages-object_example :
    let ms = part_messages (small 2) part_rounds upload (codes "id") 1 object in
    (part_messages (small 2) (part_rounds + 7) upload (codes "id") 1 object ≡ ms)
    × (bodies ms ≡ object)
    × (length ms ≡ 3)
    × (get_elem? ms 2
        ≡ some (part_message (small 2) upload (codes "id") (1 + 2) (slice 2 3 2 object)))
unfolding part_count
part_messages-object_example =
    part_messages-object (small 2) upload (codes "id") 2 7 (omega arith) (omega arith)

part_count-slice_example :
    (0 < length (slice 2 (part_count 5 2) 2 object))
    × (length (slice 2 (part_count 5 2) 2 object) ≤ 2)
unfolding part_count
part_count-slice_example = part_count-slice 2 2 object (omega arith) (omega arith) (omega arith)

-- The second part fails first.
finish_parts-Ended_example :
    Ended
      (small 2)
      upload
      (new_upload 3)
      (finish_parts (small 2) upload ((2, bad) ∷ (3, good) ∷ (1, good) ∷ []) (new_upload 3))
      (all_success ((2, bad) ∷ (3, good) ∷ (1, good) ∷ []))
unfolding new_upload
finish_parts-Ended_example =
    finish_parts-Ended (small 2) upload ((2, bad) ∷ (3, good) ∷ (1, good) ∷ []) (new_upload 3) refl
      (omega arith)

finish_parts-tag_example :
    get_or
      (finish_parts (small 2) upload ((2, bad) ∷ (3, good) ∷ (1, good) ∷ []) (new_upload 3)).etags
      2
      []
    ≡ get_etag (codes "ETag: \"t\"")
unfolding new_upload Without
finish_parts-tag_example =
    finish_parts-tag (small 2) upload ((2, bad) ∷ []) ((1, good) ∷ []) 3 good (new_upload 3)
      (omega arith) (omega arith) refl (omega arith, omega arith, tt)

abbrev asked : Transaction
asked = (put_object_request_multi_part (small 2) (codes "/o") object init).1

submit_round-twice_example : submit_round (submit_round asked).1 ≡ ([], (submit_round asked).1)
submit_round-twice_example = submit_round-twice asked

abbrev busy : Transaction
busy = record {
  messages = record { request = some (codes "GET"); put_data = none; callback = no_callback } ∷ [];
  multipart_uploads =
      record {
        upload_id = codes "id";
        messages = none ∷ none ∷ [];
        etags = codes "t" ∷ [];
        outstanding = 1;
        state = UploadState.sending;
        error_message_id = 0;
      }
      ∷ [];
  completed_multiparts = 0;
  message_counter = 0;
}

process_async-full_example : process_async full busy ≡ (false, [], busy)
unfolding AllSteady Steady submit_round submit_uploads submit_upload
process_async-full_example = process_async-full busy _ _ refl (tt, tt)

process_async-null_example :
    ((process_async full asked).0 ≡ false)
    × ((process_async roomy (process_async full asked).2).1 ≡ map some asked.messages ++ none ∷ [])
process_async-null_example = process_async-null (small 2) (codes "/o") object

-- Each message is answered in its turn.
abbrev in_turn : Schedule
in_turn n ms = map (λ m. (callback_of m, good)) ms

in_turn-callbacks :
    (ms : List (Option Message))
    → map callback_of ms ≡ map first (map (λ m. (callback_of m, good)) ms)
in_turn-callbacks [] = refl
in_turn-callbacks (m ∷ ms) = ap (λ t. callback_of m ∷ t) (in_turn-callbacks ms)

in_turn-Served : Served in_turn
unfolding Served
in_turn-Served n ms =
    subst (λ cs. Permᴰ (map callback_of ms) cs) (in_turn-callbacks ms)
      (Permᴰ.refl (map callback_of ms))

-- An object of 65536 bytes, in parts of one byte.
abbrev long : ℕ → Bytes
long n = replicate n 97

long-is_large : (n : ℕ) → 1 < n → is_large (small 1) (long n) ≡ true
long-is_large n h = rw (length-replicate {A = ℕ} n 97) (lt→ltb 1 n h)

long-part_count : (n : ℕ) → n ≡ 65536 → part_count (length (long n)) 1 ≡ 0
unfolding part_count
long-part_count n h = rw (length-replicate {A = ℕ} n 97, h) refl

process_sync-no_parts_example :
    process_sync
      (small 1)
      in_turn
      1000
      0
      (put_object_request (some (small 1)) user_callback (codes "/o") (long 65536) init).1
    ≡ none
process_sync-no_parts_example =
    process_sync-no_parts (small 1) in_turn in_turn-Served 1000 user_callback (codes "/o")
      (long 65536) good (long-is_large 65536 (omega arith)) (long-part_count 65536 refl) refl refl
