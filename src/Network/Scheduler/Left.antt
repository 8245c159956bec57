-- ===== src/Network/Scheduler/Left.antt =====
-- What a loop that has ended leaves behind: `sendReceive` in src/network/tasked_send_receiver.cpp.
use myblob.Base.{
  ℕ, ◌+◌, ◌≡◌, refl, ◌∙◌, inl, inr, Bool, true, false, ◌||◌, Option, none, some, List, [], ◌∷◌, ltb,
  if_lem, Bool-cases, length, get_elem?, arith,
}
use myblob.Network.Scheduler.{
  Status, SocketAnswer, Loop, no_more, start, begin_task, emplace_local_request, advance, complete,
  emplace, submit, after_submit, check_stop, refill, after_complete, answered, loop_round,
  is_running, send_receive,
}
use myblob.Network.Scheduler.Counts.{occurrences, occurrences-empty}
use myblob.Network.Scheduler.Sound.{Sound, send_receive-Sound, start-Sound}

module _ (execute : ℕ → ℕ → Status) (limit : ℕ) where
  -- Where the loop is to stop, the count is zero, and the queue is empty or something has been thrown.
  pub record Rested (s : Loop) : Type 0 where
    pub stopped : s.stop_deamon ≡ true → (s.count ≡ 0) × ((no_more s.queue || s.failed) ≡ true)

  begin_task-stop :
      (status : Status) (m : ℕ) (queue : List ℕ) (s : Loop)
      → (begin_task execute limit status m queue s).stop_deamon ≡ s.stop_deamon
  unfolding begin_task
  begin_task-stop Status.waiting m queue s = refl
  begin_task-stop Status.unsent m queue s = refl
  begin_task-stop Status.thrown m queue s = refl
  begin_task-stop Status.finished m queue s = refl
  begin_task-stop Status.aborted m queue s = refl

  emplace_local_request-stop :
      (queue : List ℕ) (s : Loop)
      → (emplace_local_request execute limit queue s).stop_deamon ≡ s.stop_deamon
  unfolding emplace_local_request
  emplace_local_request-stop [] s = refl
  emplace_local_request-stop (m ∷ queue) s =
      let b = begin_task-stop (execute s.calls m) m queue s in
      if_lem (λ (t : Loop). t.stop_deamon ≡ s.stop_deamon) _
        (emplace_local_request-stop queue (begin_task execute limit (execute s.calls m) m queue s)
          ∙ b)
        b

  pub emplace-stop : (s : Loop) → (emplace execute limit s).stop_deamon ≡ s.stop_deamon
  unfolding emplace
  emplace-stop s =
      if_lem (λ (t : Loop). t.stop_deamon ≡ s.stop_deamon) _ (emplace_local_request-stop s.queue s)
        refl

  pub advance-stop :
      (status : Status) (m : ℕ) (s : Loop)
      → (advance execute limit status m s).stop_deamon ≡ s.stop_deamon
  unfolding advance
  advance-stop Status.waiting m s = refl
  advance-stop Status.unsent m s = refl
  advance-stop Status.thrown m s = refl
  advance-stop Status.finished m s = refl
  advance-stop Status.aborted m s = refl

  check_stop-Rested : (s : Loop) → s.stop_deamon ≡ false → Rested (check_stop execute limit s)
  unfolding check_stop
  check_stop-Rested s f = record { stopped = λ e. grind arith }

  after_submit-Rested :
      (o : Option ℕ) (s : Loop) → s.stop_deamon ≡ false → Rested (after_submit execute limit o s)
  unfolding after_submit submit
  after_submit-Rested none s f = record { stopped = λ e. absurd (grind arith) }
  after_submit-Rested (some n) s f = check_stop-Rested (submit execute limit n s) f

  refill-Rested :
      (returned : ℕ → Option ℕ) (s : Loop)
      → s.stop_deamon ≡ false
      → Rested (refill execute limit returned s)
  unfolding refill
  refill-Rested returned s f = after_submit-Rested _ (emplace execute limit s) (emplace-stop s ∙ f)

  after_complete-Rested :
      (returned : ℕ → Option ℕ) (o : Option ℕ) (i : ℕ) (s : Loop)
      → s.stop_deamon ≡ false
      → Rested s
      → Rested (after_complete execute limit returned o i s)
  unfolding after_complete complete
  after_complete-Rested returned none i s f h = h
  after_complete-Rested returned (some m) i s f h =
      refill-Rested returned _ (advance-stop (execute s.calls m) m _ ∙ f)

  answered-Rested :
      (returned : ℕ → Option ℕ) (o : Option ℕ) (s : Loop)
      → s.stop_deamon ≡ false
      → Rested s
      → Rested (answered execute limit returned o s)
  unfolding answered
  answered-Rested returned none s f h = h
  answered-Rested returned (some i) s f h =
      after_complete-Rested returned (get_elem? s.in_flight i) i s f h

  pub running-stop :
      (s : Loop) → Rested s → is_running execute limit s ≡ true → s.stop_deamon ≡ false
  running-stop s h r = elim (Bool-cases s.stop_deamon) [
    | inr f ↦ f
    | inl e ↦ let c = (h.stopped e).0 in absurd (grind arith)
  ]

  loop_round-Rested :
      (a : SocketAnswer) (s : Loop)
      → s.stop_deamon ≡ false
      → Rested s
      → Rested (loop_round execute limit a s)
  unfolding loop_round
  loop_round-Rested a s f h =
      if_lem Rested (ltb 0 s.count) (answered-Rested a.returned a.completed s f h)
        (refill-Rested a.returned s f)

  send_receive-Rested :
      (answers : List SocketAnswer) (s : Loop)
      → Rested s
      → Rested (send_receive execute limit answers s)
  unfolding send_receive
  send_receive-Rested [] s h = h
  send_receive-Rested (a ∷ answers) s h = elim (Bool-cases (is_running execute limit s)) [
    | inl r ↦ rw r (
        send_receive-Rested answers (loop_round execute limit a s)
          (loop_round-Rested a s (running-stop s h r) h))
    | inr r ↦ rw r h
  ]

  pub start-Rested : (messages : List ℕ) → Rested (start messages)
  unfolding start
  start-Rested messages = record { stopped = λ e. absurd (grind arith) }

  pub no_more-length : (xs : List ℕ) → no_more xs ≡ true → length xs ≡ 0
  no_more-length [] h = refl
  no_more-length (x ∷ xs) h = absurd (grind arith)

  no_more-or : (a b : Bool) → (a || b) ≡ true → b ≡ false → a ≡ true
  no_more-or true b h f = refl
  no_more-or false b h f = absurd (grind arith)

  ended :
      (messages : List ℕ) (s : Loop) (k : ℕ)
      → Sound execute limit messages s
      → Rested s
      → is_running execute limit s ≡ false
      → s.failed ≡ false
      → s.submit_failed ≡ false
      → (length s.queue ≡ 0)
        × (occurrences k s.done + occurrences k s.tasks ≡ occurrences k messages)
  ended messages s k h w r f g =
      let stop : s.stop_deamon ≡ true = ground arith in
      let q = no_more-length s.queue (no_more-or _ s.failed (w.stopped stop).1 f) in
      (q, omega (arith, h.balance f k, occurrences-empty k s.queue q))

  -- Whatever the socket and the tasks answer, once the loop has ended without an exception, the queue
  -- is empty, and each message has been finished or its task is still there, together exactly as
  -- often as it was in the queue.
  pub send_receive-leaves :
      (messages : List ℕ) (answers : List SocketAnswer) (k : ℕ)
      → let s = send_receive execute limit answers (start messages) in
        is_running execute limit s ≡ false
        → s.failed ≡ false
        → s.submit_failed ≡ false
        → (length s.queue ≡ 0)
          × (occurrences k s.done + occurrences k s.tasks ≡ occurrences k messages)
  send_receive-leaves messages answers k r f g =
      ended messages (send_receive execute limit answers (start messages)) k
        (send_receive-Sound execute limit messages answers (start messages)
          (start-Sound execute limit messages))
        (send_receive-Rested answers (start messages) (start-Rested messages)) r f g
