-- ===== src/Cloud/Transaction/Uploads/Tags.antt =====
-- What the parts of an upload leave in it: their tags, and the number of one that has failed.
use myblob.Base.{
  ℕ, ◌-◌, ◌<◌, ◌≤◌, ◌≡◌, ◌≢◌, refl, ◌∙◌, ◌⊎◌, inl, inr, true, false, [], ◌∷◌, ◌++◌, if_lem,
  Bool-cases, length, take, get_or, length-set, get_or-set_self, get_or-set_ne, arith,
}
use myblob.Cloud.Provider.{get_etag}
use myblob.Cloud.Transaction.Model.{Provider, UploadRequest, MultipartUpload, Answer}
use myblob.Cloud.Transaction.Uploads.{note_part, count_down, finish_part}
use myblob.Cloud.Transaction.Uploads.Finish.{
  Answers, finish_parts, all_success, count_down-etags, count_down-error,
}

-- Part `k`, counted from zero, has failed.
unfoldable pub Failed : ℕ → Answers → Type 0
Failed k [] = ⊥
Failed k ((i, a) ∷ done) = ((a.success ≡ false) × (k ≡ i - 1)) ⊎ Failed k done

-- No part of these is part `i`.
unfoldable pub Without : ℕ → Answers → Type 0
Without i [] = Unit {0}
Without i ((j, a) ∷ done) = (0 < j) × (j ≢ i) × Without i done

module _ (p : Provider) (r : UploadRequest) where
  note_part-tag :
      (i : ℕ) (a : Answer) (u : MultipartUpload)
      → 0 < i
      → i ≤ length u.etags
      → a.success ≡ true
      → get_or (note_part p i a u).etags (i - 1) [] ≡ get_etag (take a.offset a.text)
  unfolding note_part
  note_part-tag i a u h l e = rw e (get_or-set_self u.etags (i - 1) _ [] (omega arith))

  note_part-other :
      (i j : ℕ) (a : Answer) (u : MultipartUpload)
      → 0 < i
      → 0 < j
      → j ≢ i
      → (get_or (note_part p j a u).etags (i - 1) [] ≡ get_or u.etags (i - 1) [])
        × (length (note_part p j a u).etags ≡ length u.etags)
  unfolding note_part
  note_part-other i j a u h k n =
      if_lem
        (λ (v : MultipartUpload).
          (get_or v.etags (i - 1) [] ≡ get_or u.etags (i - 1) [])
          × (length v.etags ≡ length u.etags))
        a.success (get_or-set_ne u.etags _ [] (omega arith), length-set u.etags _ _) (refl, refl)

  finish_parts-other :
      (done : Answers) (i : ℕ) (u : MultipartUpload)
      → 0 < i
      → Without i done
      → get_or (finish_parts p r done u).etags (i - 1) [] ≡ get_or u.etags (i - 1) []
  unfolding finish_parts finish_part Without
  finish_parts-other [] i u h w = refl
  finish_parts-other ((j, a) ∷ done) i u h w =
      finish_parts-other done i (count_down p r (note_part p j a u)) h w.2
      ∙ rw (count_down-etags p r (note_part p j a u)) (note_part-other i j a u h w.0 w.1).0

  pub length-note_part :
      (i : ℕ) (a : Answer) (u : MultipartUpload) → length (note_part p i a u).etags ≡ length u.etags
  unfolding note_part
  length-note_part i a u =
      if_lem (λ (v : MultipartUpload). length v.etags ≡ length u.etags) a.success
        (length-set u.etags _ _) refl

  -- A part that has succeeded has its own tag at its own place, whatever finishes before and after.
  pub finish_parts-tag :
      (before after : Answers) (i : ℕ) (a : Answer) (u : MultipartUpload)
      → 0 < i
      → i ≤ length u.etags
      → a.success ≡ true
      → Without i after
      → get_or (finish_parts p r (before ++ (i, a) ∷ after) u).etags (i - 1) []
        ≡ get_etag (take a.offset a.text)
  unfolding finish_parts finish_part
  finish_parts-tag [] after i a u h l e w =
      finish_parts-other after i (count_down p r (note_part p i a u)) h w
      ∙ rw (count_down-etags p r (note_part p i a u)) (note_part-tag i a u h l e)
  finish_parts-tag ((j, b) ∷ before) after i a u h l e w =
      finish_parts-tag before after i a (count_down p r (note_part p j b u)) h
        (rw (count_down-etags p r (note_part p j b u), length-note_part j b u) l) e w

  failed_note :
      (i : ℕ) (a : Answer) (u : MultipartUpload)
      → a.success ≡ false
      → (note_part p i a u).error_message_id ≡ i - 1
  unfolding note_part
  failed_note i a u s = rw s refl

  finish_parts-error :
      (done : Answers) (u : MultipartUpload)
      → all_success done ≡ true
      → (finish_parts p r done u).error_message_id ≡ u.error_message_id
  unfolding finish_parts finish_part all_success note_part
  finish_parts-error [] u h = refl
  finish_parts-error ((i, a) ∷ done) u h =
      let s : a.success ≡ true = grind arith in
      finish_parts-error done (count_down p r (note_part p i a u)) (grind arith)
      ∙ count_down-error p r (note_part p i a u)
      ∙ rw s refl

  -- Where a part has failed, the number that is kept is that of a part that has failed.
  pub finish_parts-Failed :
      (done : Answers) (u : MultipartUpload)
      → all_success done ≡ false
      → Failed (finish_parts p r done u).error_message_id done
  unfolding finish_parts finish_part all_success Failed
  finish_parts-Failed [] u h = absurd (grind arith)
  finish_parts-Failed ((i, a) ∷ done) u h = elim (Bool-cases (all_success done)) [
    | inr e ↦ inr (finish_parts-Failed done (finish_part p r i a u) e)
    | inl e ↦
        let s : a.success ≡ false = grind arith in
        inl (
          s,
          finish_parts-error done (count_down p r (note_part p i a u)) e
              ∙ count_down-error p r (note_part p i a u)
              ∙ failed_note i a u s,
        )
  ]
