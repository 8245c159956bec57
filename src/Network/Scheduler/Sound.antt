-- ===== src/Network/Scheduler/Sound.antt =====
-- Where the messages are while the loop runs: `sendReceive` in src/network/tasked_send_receiver.cpp.
use myblob.Base.{
  ℕ, ◌+◌, ◌-◌, ◌<◌, ◌≤◌, ◌≡◌, refl, ap, inl, inr, true, false, Option, none, some, List, [], ◌∷◌,
  ◌++◌, ltb, if_lem, Bool-cases, length, length-append, get_elem?, arith,
}
use myblob.Network.Scheduler.{
  Status, SocketAnswer, Loop, start, erase, remove_at, begin_task, goes_on, emplace_local_request,
  advance, complete, has_room, emplace, submit, after_submit, check_stop, refill, after_complete,
  answered, loop_round, is_running, send_receive,
}
use myblob.Network.Scheduler.Counts.{
  one, occurrences, occurrences-append, occurrences-last, occurrences-erase, length-erase,
  occurrences-remove_at, one_self,
}

module _ (execute : ℕ → ℕ → Status) (limit : ℕ) (messages : List ℕ) where
  -- As long as nothing has been thrown, each message is in the queue, a task or done. Each request
  -- the socket has is that of a task, and no task has two. There are not more tasks than the limit.
  pub record Sound (s : Loop) : Type 0 where
    pub balance :
        s.failed ≡ false
        → (k : ℕ)
        → occurrences k s.done + (occurrences k s.tasks + occurrences k s.queue)
          ≡ occurrences k messages
    pub accounted :
        (k : ℕ) → occurrences k s.in_flight + occurrences k s.queued ≤ occurrences k s.tasks
    pub room : length s.tasks ≤ limit

  taken :
      (k m : ℕ) (queue : List ℕ) (s : Loop)
      → s.queue ≡ m ∷ queue
      → occurrences k s.queue ≡ one k m + occurrences k queue
  unfolding occurrences
  taken k m queue s e = ap (occurrences k) e

  finished_first :
      (m : ℕ) (queue : List ℕ) (s : Loop)
      → s.queue ≡ m ∷ queue
      → Sound s
      → Sound (record s { queue = queue; done = s.done ++ m ∷ []; calls = s.calls + 1 })
  finished_first m queue s e h = record {
    balance = λ f k. omega (arith, h.balance f k, occurrences-last k m s.done, taken k m queue s e);
    accounted = h.accounted;
    room = h.room;
  }

  begin_task-Sound :
      (status : Status) (m : ℕ) (queue : List ℕ) (s : Loop)
      → s.queue ≡ m ∷ queue
      → length s.tasks < limit
      → Sound s
      → Sound (begin_task execute limit status m queue s)
  unfolding begin_task
  begin_task-Sound Status.waiting m queue s e r h = record {
    balance =
        λ f k. omega (arith, h.balance f k, occurrences-last k m s.tasks, taken k m queue s e);
    accounted = λ k.
        omega (arith, h.accounted k, occurrences-last k m s.tasks, occurrences-last k m s.queued);
    room = omega (arith, length-append s.tasks (m ∷ []));
  }
  begin_task-Sound Status.unsent m queue s e r h = record {
    balance =
        λ f k. omega (arith, h.balance f k, occurrences-last k m s.tasks, taken k m queue s e);
    accounted = λ k. omega (arith, h.accounted k, occurrences-last k m s.tasks);
    room = omega (arith, length-append s.tasks (m ∷ []));
  }
  begin_task-Sound Status.thrown m queue s e r h = record {
    balance = λ f k. absurd (grind arith);
    accounted = h.accounted;
    room = h.room;
  }
  begin_task-Sound Status.finished m queue s e r h = finished_first m queue s e h
  begin_task-Sound Status.aborted m queue s e r h = finished_first m queue s e h

  pub begin_task-queue :
      (status : Status) (m : ℕ) (queue : List ℕ) (s : Loop)
      → (begin_task execute limit status m queue s).queue ≡ queue
  unfolding begin_task
  begin_task-queue Status.waiting m queue s = refl
  begin_task-queue Status.unsent m queue s = refl
  begin_task-queue Status.thrown m queue s = refl
  begin_task-queue Status.finished m queue s = refl
  begin_task-queue Status.aborted m queue s = refl

  goes_on-room :
      (status : Status) (m : ℕ) (queue : List ℕ) (s : Loop)
      → length s.tasks < limit
      → goes_on execute limit status (length (begin_task execute limit status m queue s).tasks)
        ≡ true
      → length (begin_task execute limit status m queue s).tasks < limit
  unfolding begin_task goes_on
  goes_on-room Status.waiting m queue s r g = ground arith
  goes_on-room Status.unsent m queue s r g = ground arith
  goes_on-room Status.thrown m queue s r g = r
  goes_on-room Status.finished m queue s r g = r
  goes_on-room Status.aborted m queue s r g = r

  emplace_local_request-Sound :
      (queue : List ℕ) (s : Loop)
      → s.queue ≡ queue
      → length s.tasks < limit
      → Sound s
      → Sound (emplace_local_request execute limit queue s)
  unfolding emplace_local_request
  emplace_local_request-Sound [] s e r h = h
  emplace_local_request-Sound (m ∷ queue) s e r h =
      let status = execute s.calls m in
      let s' = begin_task execute limit status m queue s in
      let h' = begin_task-Sound status m queue s e r h in
      elim (Bool-cases (goes_on execute limit status (length s'.tasks))) [
        | inl g ↦ rw g (
            emplace_local_request-Sound queue s' (begin_task-queue status m queue s)
              (goes_on-room status m queue s r g) h')
        | inr g ↦ rw g h'
      ]

  pub room_left : (s : Loop) → has_room execute limit s ≡ true → length s.tasks < limit
  room_left s b = ground arith

  pub emplace-Sound : (s : Loop) → Sound s → Sound (emplace execute limit s)
  unfolding emplace
  emplace-Sound s h = elim (Bool-cases (has_room execute limit s)) [
    | inl b ↦ rw b (emplace_local_request-Sound s.queue s refl (room_left s b) h)
    | inr b ↦ rw b h
  ]

  submit-Sound : (n : ℕ) (s : Loop) → Sound s → Sound (submit execute limit n s)
  unfolding submit occurrences
  submit-Sound n s h = record {
    balance = h.balance;
    accounted = λ k. omega (arith, h.accounted k, occurrences-append k s.in_flight s.queued);
    room = h.room;
  }

  check_stop-Sound : (s : Loop) → Sound s → Sound (check_stop execute limit s)
  unfolding check_stop
  check_stop-Sound s h = record { balance = h.balance; accounted = h.accounted; room = h.room }

  after_submit-Sound : (o : Option ℕ) (s : Loop) → Sound s → Sound (after_submit execute limit o s)
  unfolding after_submit
  after_submit-Sound none s h = record {
    balance = h.balance;
    accounted = h.accounted;
    room = h.room;
  }
  after_submit-Sound (some n) s h = check_stop-Sound _ (submit-Sound n s h)

  refill-Sound :
      (returned : ℕ → Option ℕ) (s : Loop) → Sound s → Sound (refill execute limit returned s)
  unfolding refill
  refill-Sound returned s h = after_submit-Sound _ _ (emplace-Sound s h)

  advance_done :
      (i m : ℕ) (s : Loop)
      → get_elem? s.in_flight i ≡ some m
      → Sound s
      → Sound (record s {
        in_flight = remove_at i s.in_flight;
        count = s.count - 1;
        tasks = erase m s.tasks;
        done = s.done ++ m ∷ [];
        calls = s.calls + 1;
      })
  advance_done i m s g h = record {
    balance = λ f k. omega (
      arith,
      h.balance f k,
      occurrences-last k m s.done,
      occurrences-erase k m s.tasks
          (omega (arith, h.accounted m, occurrences-remove_at m i m s.in_flight g, one_self m)),
    );
    accounted = λ k. omega (
      arith,
      h.accounted k,
      occurrences-remove_at k i m s.in_flight g,
      occurrences-erase k m s.tasks
          (omega (arith, h.accounted m, occurrences-remove_at m i m s.in_flight g, one_self m)),
    );
    room = omega (arith, h.room, length-erase m s.tasks);
  }

  pub advance-Sound :
      (status : Status) (i m : ℕ) (s : Loop)
      → get_elem? s.in_flight i ≡ some m
      → Sound s
      → Sound (
          advance execute limit status m
            (record s { in_flight = remove_at i s.in_flight; count = s.count - 1 }))
  unfolding advance
  advance-Sound Status.waiting i m s g h = record {
    balance = h.balance;
    accounted = λ k. omega (
      arith,
      h.accounted k,
      occurrences-remove_at k i m s.in_flight g,
      occurrences-last k m s.queued,
    );
    room = h.room;
  }
  advance-Sound Status.unsent i m s g h = record {
    balance = h.balance;
    accounted = λ k. omega (arith, h.accounted k, occurrences-remove_at k i m s.in_flight g);
    room = h.room;
  }
  advance-Sound Status.thrown i m s g h = record {
    balance = λ f k. absurd (grind arith);
    accounted = λ k. omega (arith, h.accounted k, occurrences-remove_at k i m s.in_flight g);
    room = h.room;
  }
  advance-Sound Status.finished i m s g h = advance_done i m s g h
  advance-Sound Status.aborted i m s g h = advance_done i m s g h

  after_complete-Sound :
      (returned : ℕ → Option ℕ) (o : Option ℕ) (i : ℕ) (s : Loop)
      → get_elem? s.in_flight i ≡ o
      → Sound s
      → Sound (after_complete execute limit returned o i s)
  unfolding after_complete complete
  after_complete-Sound returned none i s e h = h
  after_complete-Sound returned (some m) i s e h =
      refill-Sound returned _ (advance-Sound (execute s.calls m) i m s e h)

  answered-Sound :
      (returned : ℕ → Option ℕ) (o : Option ℕ) (s : Loop)
      → Sound s
      → Sound (answered execute limit returned o s)
  unfolding answered
  answered-Sound returned none s h = h
  answered-Sound returned (some i) s h =
      after_complete-Sound returned (get_elem? s.in_flight i) i s refl h

  loop_round-Sound : (a : SocketAnswer) (s : Loop) → Sound s → Sound (loop_round execute limit a s)
  unfolding loop_round
  loop_round-Sound a s h =
      if_lem Sound (ltb 0 s.count) (answered-Sound a.returned a.completed s h)
        (refill-Sound a.returned s h)

  -- Whatever the socket and the tasks answer, a run keeps `Sound`: without an exception out of
  -- `execute` each message stays in the queue, a task or done; each request that the socket has
  -- belongs to a task that is still there, and no task has two; there are not more tasks than the
  -- limit.
  pub send_receive-Sound :
      (answers : List SocketAnswer) (s : Loop)
      → Sound s
      → Sound (send_receive execute limit answers s)
  unfolding send_receive
  send_receive-Sound [] s h = h
  send_receive-Sound (a ∷ answers) s h =
      if_lem Sound (is_running execute limit s)
        (send_receive-Sound answers (loop_round execute limit a s) (loop_round-Sound a s h)) h

  pub start-Sound : Sound (start messages)
  unfolding start occurrences
  start-Sound = record {
    balance = λ f k. omega arith;
    accounted = λ k. omega arith;
    room = omega arith;
  }
