-- ===== src/Network/HttpsMessage/Answered/Received.antt =====
-- What the rounds that receive keep: src/network/https_message.cpp.
use mathlib.Core.Path.{subst}
use myblob.Base.{
  ℕ, ◌+◌, ◌-◌, ◌≡◌, refl, sym, inl, inr, Bool, true, false, Option, none, some, [], leb, min, ◌==◌,
  if_lem, Bool-cases, Option-cases, length, Result, ok, err, arith,
}
use myblob.Base.Text.{Bytes, find}
use myblob.Utils.DataVector.{NotOwned, owned, resize}
use myblob.Network.HttpResponse.{check_success, deserialize, read_lines}
use myblob.Network.HttpHelper.{Info, finished, known_info, detect}
use myblob.Network.HttpHelper
use myblob.Network.ConnectionManager.{Manager}
use myblob.Network.HttpMessage.Task.{MessageState, Task, failures_max}
use myblob.Network.HttpMessage.Sending.{Resigned}
use myblob.Network.HttpMessage.Receiving.{received}
use myblob.Network.HttpMessage.Resets.{FreshIn}
use myblob.Network.HttpsMessage.Task.{
  Progress, TlsAnswers, TlsTask, TlsOutcome, returns, or_throws, with_state, read_room, grown,
  more_room,
}
use myblob.Network.HttpsMessage.Stages.{
  handle_tls, complete_tls, judge_tls, received_piece, tls_recv_stage, recv_into, recv_room,
}
use myblob.Network.HttpsMessage.Answered.Carried.{
  Late, Good, Carries, Renewed-Good, reset_tls-Good, fail_tls-Good, handle_tls-Good,
}

-- No head is noted before bytes have come.
abbrev pub NoHead : Task → Type 0
NoHead b = b.receive_buffer_offset ≡ 0 → b.info ≡ none

received-empty : (b : Task) → b.receive_buffer_offset ≡ 0 → received b ≡ []
received-empty b z = elim (Option-cases b.data_vector.memory) [
  | inl e ↦ rw e refl
  | inr (cells, e) ↦ rw (e, z) refl
]

finished-empty : (myblob.Network.HttpHelper.finished [] none).1 ≡ none
unfolding finished known_info detect deserialize read_lines find
finished-empty = refl

module _ (resigning : Option (Bytes → Resigned)) (tls : TlsAnswers) where
  complete_tls-Good :
      (info noted : Option Info) (t : TlsTask) (m : Manager)
      → myblob.Network.HttpHelper.finished (received t.base) noted ≡ (ok true, info)
      → Carries (complete_tls resigning tls info t m)
  unfolding complete_tls Carries FreshIn
  complete_tls-Good none noted t m h = tt
  complete_tls-Good (some info) noted t m h = elim (Bool-cases (check_success info.response.code)) [
    | inl e ↦ rw e (record {
      late = λ l. record { info = info; noted = noted; response = refl; success = e; whole = h };
      fresh = tt;
    })
    | inr e ↦ rw e (
        reset_tls-Good resigning tls _ m true returns (handle_tls resigning tls)
          (λ u k g. Renewed-Good u g) (λ u k. handle_tls-Good resigning tls u k))
  ]

  judge_tls-Good :
      (r : Result myblob.Network.HttpHelper.Error Bool) (info noted : Option Info) (t : TlsTask)
      (m : Manager)
      → t.base.state ≡ MessageState.receiving
      → (t.base.receive_buffer_offset ≡ 0 → info ≡ none)
      → myblob.Network.HttpHelper.finished (received t.base) noted ≡ (r, info)
      → Carries (judge_tls resigning tls r info t m)
  unfolding judge_tls Carries Late FreshIn
  judge_tls-Good (ok true) info noted t m s k e = complete_tls-Good info noted t m e
  judge_tls-Good (ok false) info noted t m s k e = record {
    late = λ l. absurd (subst Late s l);
    fresh = subst (λ q. FreshIn q t.base.receive_buffer_offset info) (sym s) k;
  }
  judge_tls-Good (err x) info noted t m s k e = handle_tls-Good resigning tls _ m

  or_throws-Good {ℓ} :
      {A : Type ℓ} (r : Result NotOwned A) (t : TlsTask) (m : Manager) (f : A → TlsOutcome)
      → ((a : A) → Carries (f a))
      → Carries (or_throws r t m f)
  unfolding Carries
  or_throws-Good (ok a) t m f h = h a
  or_throws-Good (err e) t m f h = tt

  -- Nothing has come, so no head is found.
  none_found :
      (b : Task) (noted : Option Info)
      → b.receive_buffer_offset ≡ 0
      → noted ≡ none
      → (myblob.Network.HttpHelper.finished (received b) noted).1 ≡ none
  none_found b noted z e = rw (e, received-empty b z) finished-empty

  received_piece-Good :
      (text : Bytes) (t : TlsTask) (m : Manager)
      → t.base.state ≡ MessageState.receiving
      → NoHead t.base
      → Carries (received_piece resigning tls text t m)
  unfolding received_piece
  received_piece-Good text t m s k = or_throws-Good _ _ m _ (λ v.
      let b : Task = record t.base {
        data_vector = v;
        receive_buffer_offset = t.base.receive_buffer_offset + length text;
      } in
      judge_tls-Good _ _ t.base.info (record t { base = b }) m s
        (λ z. none_found b t.base.info z (k (omega arith))) refl)

  tls_recv_stage-Good :
      (p : Progress × Bytes) (t : TlsTask) (m : Manager)
      → t.base.state ≡ MessageState.receiving
      → NoHead t.base
      → Good t
      → Carries (tls_recv_stage resigning tls p t m)
  unfolding tls_recv_stage Carries
  tls_recv_stage-Good (Progress.finished, text) t m s k g = received_piece-Good text t m s k
  tls_recv_stage-Good (Progress.aborted, text) t m s k g =
      fail_tls-Good resigning tls failures_max _ t m
  tls_recv_stage-Good (Progress.init, text) t m s k g = g
  tls_recv_stage-Good (Progress.sending_init, text) t m s k g = g
  tls_recv_stage-Good (Progress.sending, text) t m s k g = g
  tls_recv_stage-Good (Progress.receiving_init, text) t m s k g = g
  tls_recv_stage-Good (Progress.receiving, text) t m s k g = g
  tls_recv_stage-Good (Progress.in_progress, text) t m s k g = g

  recv_into-Good :
      (m : Manager) (n : ℕ) (t : TlsTask) → NoHead t.base → Carries (recv_into resigning tls m n t)
  unfolding recv_into FreshIn Late
  recv_into-Good m n t k =
      tls_recv_stage-Good (tls.recv t.calls n)
        (with_state MessageState.receiving (record t { calls = t.calls + 1 })) m refl k
        (record { late = λ l. absurd l; fresh = k })

  -- The end where lent memory is full.
  stopped-Good :
      (t : TlsTask) (m : Manager)
      → Carries (
          returns
            (record t {
              base = record t.base {
                failure_code = record t.base.failure_code { recv = true };
                state = MessageState.aborted;
              };
            })
            m)
  unfolding Carries Late FreshIn
  stopped-Good t m = record { late = λ l. absurd l; fresh = tt }

  read_room-Good :
      (n : ℕ) (t : TlsTask) (m : Manager) (next : ℕ → TlsTask → TlsOutcome)
      → NoHead t.base
      → ((n : ℕ) (u : TlsTask) → NoHead u.base → Carries (next n u))
      → Carries (read_room n t m next)
  unfolding read_room
  read_room-Good n t m next k h =
      or_throws-Good (resize 0 t.base.data_vector (t.base.data_vector.size + n)) t m
        (λ v. next n (record t { base = record t.base { data_vector = v } }))
        (λ v. h n (record t { base = record t.base { data_vector = v } }) k)

  more_room-Good :
      (t : TlsTask) (m : Manager) (next : ℕ → TlsTask → TlsOutcome)
      → NoHead t.base
      → ((n : ℕ) (u : TlsTask) → NoHead u.base → Carries (next n u))
      → Carries (more_room t m next)
  unfolding more_room
  more_room-Good t m next k h =
      let v = t.base.data_vector in
      if_lem Carries (owned v)
        (or_throws-Good (grown t.base.info t.base) t m
          (λ w.
            read_room t.base.chunk_size (record t { base = record t.base { data_vector = w } }) m
              next)
          (λ w.
            read_room-Good t.base.chunk_size (record t { base = record t.base { data_vector = w } })
              m next k h))
        (if_lem Carries (leb v.capacity t.base.receive_buffer_offset) (stopped-Good t m) (
          read_room-Good (min t.base.chunk_size (v.capacity - t.base.receive_buffer_offset)) t m
            next k h))

  pub recv_room-Good :
      (n : ℕ) (t : TlsTask) (m : Manager) → NoHead t.base → Carries (recv_room resigning tls n t m)
  unfolding recv_room
  recv_room-Good n t m k =
      if_lem Carries (n == 0)
        (more_room-Good t m (recv_into resigning tls m) k (λ n u j. recv_into-Good m n u j))
        (recv_into-Good m n t k)
