-- ===== src/Cloud/Transaction/Uploads/Finish.antt =====
-- The parts of an upload finish in any order: `finishMultipart` in include/cloud/transaction.hpp.
use myblob.Base.{
  ℕ, ◌-◌, ◌<◌, ◌≡◌, refl, ap, sym, ◌∙◌, ◌⊎◌, inl, inr, Bool, true, false, not, ◌&&◌, none, some,
  List, [], ◌∷◌, ◌==◌, if_lem, Bool-cases, length, set, arith,
}
use myblob.Base.Text.{Bytes}
use myblob.Cloud.Transaction.Model.{
  Provider, Message, UploadRequest, UploadState, MultipartUpload, Answer, complete_finished,
  abort_finished,
}
use myblob.Cloud.Transaction.Uploads.{is_aborted, note_part, last_message, count_down, finish_part}

-- The numbers of the parts with their answers, in the order in which they finish.
abbrev pub Answers : Type 0
Answers = List (ℕ × Answer)

unfoldable pub finish_parts : Provider → UploadRequest → Answers → MultipartUpload → MultipartUpload
finish_parts p r [] u = u
finish_parts p r ((i, a) ∷ done) u = finish_parts p r done (finish_part p r i a u)

unfoldable pub all_success : Answers → Bool
all_success [] = true
all_success ((i, a) ∷ done) = a.success && all_success done

-- The message that is to end an upload.
unfoldable pub ending : Provider → UploadRequest → Bool → Bytes → List Bytes → Message
ending p r true upload_id etags = record {
  request = (p.complete_multi_part_request r.remote_path upload_id etags).0;
  put_data = some ((p.complete_multi_part_request r.remote_path upload_id etags).1);
  callback = complete_finished r;
}
ending p r false upload_id etags = record {
  request = p.delete_request_generic r.remote_path upload_id;
  put_data = none;
  callback = abort_finished r;
}

and_true : (b : Bool) → (b && true) ≡ b
and_true true = refl
and_true false = refl

and_assoc : (a b c : Bool) → ((a && b) && c) ≡ (a && (b && c))
and_assoc true b c = refl
and_assoc false b c = refl

module _ (p : Provider) (r : UploadRequest) where
  last_message-ending :
      (u : MultipartUpload)
      → last_message p r u ≡ ending p r (not (is_aborted u.state)) u.upload_id u.etags
  unfolding last_message ending
  last_message-ending u = elim (Bool-cases (is_aborted u.state)) [
    | inl e ↦ rw e refl
    | inr e ↦ rw e refl
  ]

  pub count_down-etags : (u : MultipartUpload) → (count_down p r u).etags ≡ u.etags
  unfolding count_down
  count_down-etags u = if_lem (λ (v : MultipartUpload). v.etags ≡ u.etags) _ refl refl

  pub count_down-error :
      (u : MultipartUpload) → (count_down p r u).error_message_id ≡ u.error_message_id
  unfolding count_down
  count_down-error u =
      if_lem (λ (v : MultipartUpload). v.error_message_id ≡ u.error_message_id) _ refl refl

  count_down-pending :
      (u : MultipartUpload)
      → 1 < u.outstanding
      → count_down p r u ≡ record u { outstanding = u.outstanding - 1 }
  unfolding count_down
  count_down-pending u h = let e : (u.outstanding == 1) ≡ false = ground arith in rw e refl

  -- What a part changes of an upload.
  record Noted (u v : MultipartUpload) (success : Bool) : Type 0 where
    same_messages : v.messages ≡ u.messages
    same_id : v.upload_id ≡ u.upload_id
    noted : not (is_aborted v.state) ≡ (not (is_aborted u.state) && success)

  note_part-outstanding :
      (i : ℕ) (a : Answer) (u : MultipartUpload) → (note_part p i a u).outstanding ≡ u.outstanding
  unfolding note_part
  note_part-outstanding i a u =
      if_lem (λ (v : MultipartUpload). v.outstanding ≡ u.outstanding) a.success refl refl

  note_part-Noted :
      (i : ℕ) (a : Answer) (u : MultipartUpload) → Noted u (note_part p i a u) a.success
  unfolding note_part
  note_part-Noted i a u = elim (Bool-cases a.success) [
    | inl e ↦ rw e (record { same_messages = refl; same_id = refl; noted = grind arith })
    | inr e ↦ rw e (record { same_messages = refl; same_id = refl; noted = grind arith })
  ]

  -- An upload whose parts have all finished.
  pub record Ended (u v : MultipartUpload) (success : Bool) : Type 0 where
    pub outstanding : v.outstanding ≡ 0
    pub state : v.state ≡ UploadState.validating
    pub messages :
        v.messages
        ≡ set u.messages r.parts
            (some (ending p r (not (is_aborted u.state) && success) u.upload_id v.etags))

  count_down-Ended : (u : MultipartUpload) → u.outstanding ≡ 1 → Ended u (count_down p r u) true
  unfolding count_down
  count_down-Ended u h =
      let e : (u.outstanding == 1) ≡ true = ground arith in
      let m = last_message-ending (record u { outstanding = u.outstanding - 1 }) in
      let same =
        ap (λ x. set u.messages r.parts (some x))
          (m
            ∙ ap (λ b. ending p r b u.upload_id u.etags)
                (sym (and_true (not (is_aborted u.state))))) in
      rw e (record { outstanding = omega arith; state = refl; messages = same })

  carry : (u n v : MultipartUpload) (s t : Bool) → Noted u n s → Ended n v t → Ended u v (s && t)
  carry u n v s t h e = record {
    outstanding = e.outstanding;
    state = e.state;
    messages =
        e.messages
        ∙ rw (h.same_messages, h.same_id, h.noted, and_assoc (not (is_aborted u.state)) s t) refl;
  }

  -- Once as many parts have finished as were outstanding, in any order, none is outstanding, the
  -- state is `Validating`, and the place behind the parts holds the request that completes the
  -- upload with its tags if all have succeeded and it was not aborted before, and the request that
  -- deletes it if not.
  pub finish_parts-Ended :
      (done : Answers) (u : MultipartUpload)
      → length done ≡ u.outstanding
      → 0 < u.outstanding
      → Ended u (finish_parts p r done u) (all_success done)
  unfolding finish_parts all_success finish_part
  finish_parts-Ended [] u e h = absurd (omega arith)
  finish_parts-Ended ((i, a) ∷ []) u e h =
      let o = note_part-outstanding i a u in
      carry u (note_part p i a u) (count_down p r (note_part p i a u)) a.success true
        (note_part-Noted i a u) (count_down-Ended (note_part p i a u) (omega arith))
  finish_parts-Ended ((i, a) ∷ x ∷ done) u e h =
      let o = note_part-outstanding i a u in
      let n = note_part-Noted i a u in
      rw (count_down-pending (note_part p i a u) (omega arith)) (
        carry u (record (note_part p i a u) { outstanding = (note_part p i a u).outstanding - 1 }) _
          a.success (all_success (x ∷ done))
          (record { same_messages = n.same_messages; same_id = n.same_id; noted = n.noted })
          (finish_parts-Ended (x ∷ done)
            (record (note_part p i a u) { outstanding = (note_part p i a u).outstanding - 1 })
            (omega arith) (omega arith)))

  note_part-state :
      (i : ℕ) (a : Answer) (u : MultipartUpload)
      → ((note_part p i a u).state ≡ u.state) ⊎ ((note_part p i a u).state ≡ UploadState.aborted)
  unfolding note_part
  note_part-state i a u =
      if_lem (λ (v : MultipartUpload). (v.state ≡ u.state) ⊎ (v.state ≡ UploadState.aborted))
        a.success (inl refl) (inr refl)

  pub record Waiting (u v : MultipartUpload) (n : ℕ) : Type 0 where
    pub messages : v.messages ≡ u.messages
    pub outstanding : v.outstanding ≡ u.outstanding - n
    pub state : (v.state ≡ u.state) ⊎ (v.state ≡ UploadState.aborted)

  -- Before the last part finishes, no message is added, as many parts are outstanding as have not
  -- finished, and the state is as before or `Aborted`.
  pub finish_parts-Waiting :
      (done : Answers) (u : MultipartUpload)
      → length done < u.outstanding
      → Waiting u (finish_parts p r done u) (length done)
  unfolding finish_parts finish_part
  finish_parts-Waiting [] u h = record {
    messages = refl;
    outstanding = omega arith;
    state = inl refl;
  }
  finish_parts-Waiting ((i, a) ∷ done) u h =
      let o = note_part-outstanding i a u in
      let n = note_part-Noted i a u in
      let s = note_part-state i a u in
      let w =
        finish_parts-Waiting done
          (record (note_part p i a u) { outstanding = (note_part p i a u).outstanding - 1 })
          (omega arith) in
      rw (count_down-pending (note_part p i a u) (omega arith)) (record {
        messages = w.messages ∙ n.same_messages;
        outstanding = ground (arith, w.outstanding);
        state = elim w.state [
          | inr e ↦ inr e
          | inl e ↦ elim s [ inl f ↦ inl (e ∙ f) | inr f ↦ inr (e ∙ f) ]
        ];
      })
