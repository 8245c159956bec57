-- ===== src/Cloud/Transaction/Uploads/Parts.antt =====
-- The parts of an upload and what is submitted of them: `uploadMessages` in
-- include/cloud/transaction.hpp.
use myblob.Base.{
  ℕ, zero, suc, ◌+◌, ◌*◌, ◌<◌, ◌%◌, ◌^◌, leb, true, false, ◌≡◌, refl, ap, sym, ◌∙◌, Option, none,
  some, List, [], ◌∷◌, ◌++◌, map, append-nil, ◌==◌, if◌then◌else◌, length, take, drop, set,
  replicate, get_elem?, length-replicate, take-all, arith,
}
use myblob.Base.Text.{Bytes}
use myblob.Cloud.Provider.{get_upload_id}
use myblob.Cloud.Transaction.Model.{Provider, Message, UploadRequest, new_upload}
use myblob.Cloud.Transaction.Uploads.{
  part_size, part_message, part_messages, part_rounds, write_messages, begin_upload,
}
use myblob.Cloud.Transaction.Process.{submit_upload}

abbrev no_tag : Bytes
no_tag = []

-- The bodies of messages, one behind the other.
unfoldable pub bodies : List Message → Bytes
bodies [] = []
bodies (m ∷ ms) = (elim m.put_data [ none ↦ [] | some b ↦ b ]) ++ bodies ms

append-take-drop {ℓ} : {A : Type ℓ} (n : ℕ) (xs : List A) → take n xs ++ drop n xs ≡ xs
append-take-drop zero xs = refl
append-take-drop (suc n) [] = refl
append-take-drop (suc n) (x ∷ xs) = ap (λ t. x ∷ t) (append-take-drop n xs)

drop-all {ℓ} : {A : Type ℓ} (xs : List A) → drop (length xs) xs ≡ []
drop-all [] = refl
drop-all (x ∷ xs) = drop-all xs

drop-drop {ℓ} : {A : Type ℓ} (m n : ℕ) (xs : List A) → drop n (drop m xs) ≡ drop (m + n) xs
drop-drop zero n xs = let e : 0 + n ≡ n = omega arith in rw e refl
drop-drop (suc m) zero [] = let e : suc m + 0 ≡ suc m = omega arith in rw e refl
drop-drop (suc m) (suc n) [] = let e : suc m + suc n ≡ suc (m + suc n) = omega arith in rw e refl
drop-drop (suc m) n (x ∷ xs) =
    let e : suc m + n ≡ suc (m + n) = omega arith in rw e (drop-drop m n xs)

part_size-last : (parts split left : ℕ) → part_size parts parts split left ≡ left
unfolding part_size
part_size-last parts split left = ground arith

part_size-full : (i parts split left : ℕ) → i < parts → part_size i parts split left ≡ split
unfolding part_size
part_size-full i parts split left h = ground arith

-- What part `k`, counted from zero, is to hold.
unfoldable pub slice : ℕ → ℕ → ℕ → Bytes → Bytes
slice split parts k object =
    if suc k == parts then drop (k * split) object else take split (drop (k * split) object)

slice-one : (split : ℕ) (rest : Bytes) → slice split 1 0 rest ≡ rest
unfolding slice
slice-one split rest = let e : 0 * split ≡ 0 = omega arith in rw e refl

slice-first :
    (split left : ℕ) (rest : Bytes) → slice split (suc (suc left)) 0 rest ≡ take split rest
unfolding slice
slice-first split left rest = let e : 0 * split ≡ 0 = omega arith in rw e (ground arith)

slice-later :
    (split left k : ℕ) (rest : Bytes)
    → slice split (suc left) (suc k) rest ≡ slice split left k (drop split rest)
unfolding slice
slice-later split left k rest =
    let e : suc k * split ≡ split + k * split = omega arith in
    rw (drop-drop split (k * split) rest, e) (ground arith)

-- The messages for the parts from `i` on, `left` of them.
unfoldable pub listed : Provider → UploadRequest → Bytes → ℕ → ℕ → Bytes → List Message
listed p r upload_id i zero rest = []
listed p r upload_id i (suc left) rest =
    let size = part_size i r.parts p.multipart_upload_size (length rest) in
    part_message p r upload_id i (take size rest)
    ∷ listed p r upload_id (suc i) left (drop size rest)

pub part_messages-listed :
    (p : Provider) (r : UploadRequest) (upload_id : Bytes) (rounds i left : ℕ) (rest : Bytes)
    → i + left ≡ suc r.parts
    → r.parts < 65535
    → left < rounds
    → part_messages p rounds r upload_id i rest ≡ listed p r upload_id i left rest
unfolding part_messages listed
part_messages-listed p r upload_id zero i left rest e b l = absurd (omega arith)
part_messages-listed p r upload_id (suc rounds) i zero rest e b l =
    let t : leb i r.parts ≡ false = ground arith in rw (part_messages, t) refl
part_messages-listed p r upload_id (suc rounds) i (suc left) rest e b l =
    let t : leb i r.parts ≡ true = ground arith in
    let n : (i + 1) % 2 ^ 16 ≡ suc i = omega arith in
    let size = part_size i r.parts p.multipart_upload_size (length rest) in
    rw (part_messages, t, n)
      (ap (λ ms. part_message p r upload_id i (take size rest) ∷ ms)
        (part_messages-listed p r upload_id rounds (suc i) left (drop size rest) (omega arith) b
          (omega arith)))

module _ (p : Provider) (r : UploadRequest) (upload_id : Bytes) where
  abbrev from : ℕ → ℕ → Bytes → List Message
  from i left rest = listed p r upload_id i left rest

  pub length-listed : (i left : ℕ) (rest : Bytes) → length (from i left rest) ≡ left
  unfolding listed
  length-listed i zero rest = refl
  length-listed i (suc left) rest = ap suc (length-listed (suc i) left _)

  bodies-from :
      (i left : ℕ) (rest : Bytes) → i + left ≡ r.parts → bodies (from i (suc left) rest) ≡ rest
  unfolding listed part_message bodies
  bodies-from i zero rest h =
      let e : i ≡ r.parts = omega arith in
      let d = part_size-last r.parts p.multipart_upload_size (length rest) in
      rw (e, d) (append-nil _ ∙ take-all (length rest) rest (omega arith))
  bodies-from i (suc left) rest h =
      ap (λ t. take (part_size i r.parts p.multipart_upload_size (length rest)) rest ++ t)
        (bodies-from (suc i) left
          (drop (part_size i r.parts p.multipart_upload_size (length rest)) rest) (omega arith))
      ∙ append-take-drop _ rest

  from-full :
      (i left : ℕ) (rest : Bytes)
      → i < r.parts
      → from i (suc left) rest
        ≡ part_message p r upload_id i (take p.multipart_upload_size rest)
          ∷ from (suc i) left (drop p.multipart_upload_size rest)
  unfolding listed
  from-full i left rest h =
      rw (part_size-full i r.parts p.multipart_upload_size (length rest) h) refl

  from-last : (rest : Bytes) → from r.parts 1 rest ≡ part_message p r upload_id r.parts rest ∷ []
  unfolding listed
  from-last rest =
      rw
        (
          part_size-last r.parts p.multipart_upload_size (length rest),
          take-all (length rest) rest (omega arith),
        )
        refl

  part-at :
      (i left k : ℕ) (rest : Bytes)
      → i + left ≡ suc r.parts
      → k < left
      → get_elem? (from i left rest) k
        ≡ some (part_message p r upload_id (i + k) (slice p.multipart_upload_size left k rest))
  part-at i zero k rest h l = absurd (omega arith)
  part-at i (suc zero) zero rest h l =
      let e : i ≡ r.parts = omega arith in
      let z : i + 0 ≡ r.parts = omega arith in
      rw (slice-one p.multipart_upload_size rest, z, e, from-last rest) refl
  part-at i (suc (suc left)) zero rest h l =
      let z : i + 0 ≡ i = omega arith in
      rw
        (
          slice-first p.multipart_upload_size left rest,
          z,
          from-full i (suc left) rest (omega arith),
        )
        refl
  part-at i (suc zero) (suc k) rest h l = absurd (omega arith)
  part-at i (suc (suc left)) (suc k) rest h l =
      let z : i + suc k ≡ suc i + k = omega arith in
      rw
        (
          slice-later p.multipart_upload_size (suc left) k rest,
          z,
          from-full i (suc left) rest (omega arith),
        )
        (part-at (suc i) (suc left) k (drop p.multipart_upload_size rest) (omega arith)
          (omega arith))

  whole : (k left : ℕ) → k < left → left ≡ r.parts → bodies (from 1 left r.object) ≡ r.object
  whole k zero h e = absurd (omega arith)
  whole k (suc left) h e = bodies-from 1 left r.object (omega arith)

  -- For fewer than 65535 parts the loop over them ends: more rounds make no more messages. The bodies
  -- of the messages, in order, are the object, and part `k` is the request for the slice at
  -- `k * splitSize` under the number `k + 1`.
  pub part_messages-object :
      (k more : ℕ)
      → k < r.parts
      → r.parts < 65535
      → let ms = part_messages p part_rounds r upload_id 1 r.object in
        (part_messages p (part_rounds + more) r upload_id 1 r.object ≡ ms)
        × (bodies ms ≡ r.object)
        × (length ms ≡ r.parts)
        × (get_elem? ms k
            ≡ some (
                part_message p r upload_id
                  (1 + k)
                  (slice p.multipart_upload_size r.parts k r.object)))
  part_messages-object k more h b =
      let e =
        part_messages-listed p r upload_id part_rounds 1 r.parts r.object (omega arith) b
          (omega arith) in
      let f =
        part_messages-listed p r upload_id (part_rounds + more) 1 r.parts r.object (omega arith) b
          (omega arith) in
      (
        f ∙ sym e,
        ap bodies e ∙ whole k r.parts h refl,
        ap length e ∙ length-listed 1 r.parts r.object,
        ap (λ ms. get_elem? ms k) e ∙ part-at 1 r.parts k r.object (omega arith) h,
      )

module _ (p : Provider) (r : UploadRequest) (text : Bytes) where
  write_behind :
      (ms : List Message) (i : ℕ) (x : Option Message) (slots : List (Option Message))
      → write_messages p ms (suc i) (x ∷ slots) ≡ x ∷ write_messages p ms i slots
  unfolding write_messages
  write_behind [] i x slots = refl
  write_behind (m ∷ ms) i x slots = write_behind ms (suc i) x (set slots i (some m))

  write_all :
      (ms : List Message)
      → write_messages p ms 0 (replicate (suc (length ms)) none) ≡ map some ms ++ none ∷ []
  unfolding write_messages
  write_all [] = refl
  write_all (m ∷ ms) = write_behind ms 0 (some m) _ ∙ ap (λ t. some m ∷ t) (write_all ms)

  take-map :
      (ms : List Message) (more : List (Option Message))
      → take (length ms) (map some ms ++ more) ≡ map some ms
  take-map [] more = refl
  take-map (m ∷ ms) more = ap (λ t. some m ∷ t) (take-map ms more)

  sent :
      (ms : List Message) (n : ℕ)
      → length ms ≡ n
      → take (length (replicate n no_tag)) (write_messages p ms 0 (replicate (suc n) none))
        ≡ map some ms
  sent ms n e =
      rw (← e, length-replicate (length ms) no_tag, write_all ms) (take-map ms (none ∷ []))

  -- The first request's success, answered with `text`, makes the next round submit the part messages
  -- for the upload id in `text`, each once and in order, and leaves the place behind them empty.
  pub submit_upload-begin_upload :
      r.parts < 65535
      → let u = begin_upload p r text (new_upload r.parts) in
        let ms = listed p r (get_upload_id text) 1 r.parts r.object in
        (submit_upload u.state u).0 ≡ map some ms
  unfolding submit_upload begin_upload new_upload
  submit_upload-begin_upload b =
      let e =
        part_messages-listed p r (get_upload_id text) part_rounds 1 r.parts r.object (omega arith) b
          (omega arith) in
      ap
        (λ ms.
          take (length (replicate r.parts no_tag))
            (write_messages p ms 0 (replicate (suc r.parts) none)))
        e
      ∙ sent (listed p r (get_upload_id text) 1 r.parts r.object) r.parts
          (length-listed p r (get_upload_id text) 1 r.parts r.object)
