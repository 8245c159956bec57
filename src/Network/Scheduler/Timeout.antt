-- ===== src/Network/Scheduler/Timeout.antt =====
-- A poll that times out: `sendReceive` in src/network/tasked_send_receiver.cpp with `submit` of
-- src/network/poll_socket.cpp.
use mathlib.Core.Path.{subst}
use myblob.Base.{
  ℕ, suc, ◌+◌, ◌<◌, ◌≤◌, ◌≡◌, refl, sym, ◌∙◌, inl, inr, false, some, List, [], ◌∷◌, ◌++◌,
  append-nil, append_assoc, Bool-cases, length, lt→ltb, length-append, arith,
}
use myblob.Network.Scheduler.{
  Status, SocketAnswer, Loop, start, begin_task, goes_on, emplace_local_request, emplace, submit,
  after_submit, check_stop, refill, loop_round, is_running, send_receive,
}

module _ (execute : ℕ → ℕ → Status) (limit : ℕ) where
  -- All of the queue has become tasks that wait.
  pub record AllWait (s : Loop) (queue : List ℕ) (t : Loop) : Type 0 where
    pub queue_empty : t.queue ≡ []
    pub tasks_all : t.tasks ≡ s.tasks ++ queue
    pub same_done : t.done ≡ s.done
    pub same_count : t.count ≡ s.count
    pub same_failed : t.failed ≡ s.failed
    pub same_submit_failed : t.submit_failed ≡ s.submit_failed
    pub same_stop : t.stop_deamon ≡ s.stop_deamon

  stays : (s : Loop) → s.queue ≡ [] → AllWait s [] s
  stays s e = record {
    queue_empty = e;
    tasks_all = sym (append-nil s.tasks);
    same_done = refl;
    same_count = refl;
    same_failed = refl;
    same_submit_failed = refl;
    same_stop = refl;
  }

  abbrev waits : ℕ → List ℕ → Loop → Loop
  waits m queue s = begin_task execute limit Status.waiting m queue s

  one_more :
      (m : ℕ) (queue : List ℕ) (s t : Loop)
      → AllWait (waits m queue s) queue t
      → AllWait s (m ∷ queue) t
  unfolding begin_task
  one_more m queue s t h = record {
    queue_empty = h.queue_empty;
    tasks_all = h.tasks_all ∙ append_assoc s.tasks (m ∷ []) queue;
    same_done = h.same_done;
    same_count = h.same_count;
    same_failed = h.same_failed;
    same_submit_failed = h.same_submit_failed;
    same_stop = h.same_stop;
  }

  -- The loop over the queue goes on after a task that waits, or the queue is empty.
  last_or_room :
      (m : ℕ) (queue : List ℕ) (s : Loop)
      → length s.tasks + suc (length queue) ≤ limit
      → goes_on execute limit Status.waiting (length (waits m queue s).tasks) ≡ false
      → length queue ≡ 0
  unfolding begin_task goes_on
  last_or_room m queue s l g = let a = length-append s.tasks (m ∷ []) in ground arith

  stopped :
      (m : ℕ) (queue : List ℕ) (s : Loop)
      → length queue ≡ 0
      → AllWait s (m ∷ queue) (waits m queue s)
  unfolding begin_task
  stopped m [] s z = record {
    queue_empty = refl;
    tasks_all = refl;
    same_done = refl;
    same_count = refl;
    same_failed = refl;
    same_submit_failed = refl;
    same_stop = refl;
  }
  stopped m (x ∷ queue) s z = absurd (omega arith)

  emplace_local_request-AllWait :
      (n : ℕ) (queue : List ℕ) (s : Loop)
      → s.queue ≡ queue
      → length s.tasks + length queue ≤ limit
      → s.calls + length queue ≤ n
      → ((c m : ℕ) → c < n → execute c m ≡ Status.waiting)
      → AllWait s queue (emplace_local_request execute limit queue s)
  unfolding emplace_local_request begin_task
  emplace_local_request-AllWait n [] s e l c w = stays s e
  emplace_local_request-AllWait n (m ∷ queue) s e l c w =
      let s' = waits m queue s in
      let h =
        emplace_local_request-AllWait n queue s' refl
          (omega (arith, length-append s.tasks (m ∷ []))) (omega arith) w in
      elim (Bool-cases (goes_on execute limit Status.waiting (length s'.tasks))) [
        | inl g ↦ rw (w s.calls m (omega arith), g) (one_more m queue s _ h)
        | inr g ↦
            let z = last_or_room m queue s l g in
            rw (w s.calls m (omega arith), g) (stopped m queue s z)
      ]

  send_receive-stopped :
      (answers : List SocketAnswer) (s : Loop)
      → is_running execute limit s ≡ false
      → send_receive execute limit answers s ≡ s
  unfolding send_receive
  send_receive-stopped [] s r = refl
  send_receive-stopped (a ∷ answers) s r = rw r refl

  -- What is left when nothing has been served.
  pub record Forgotten (messages : List ℕ) (s : Loop) : Type 0 where
    pub ended : is_running execute limit s ≡ false
    pub no_exception : s.failed ≡ false
    pub no_submit_error : s.submit_failed ≡ false
    pub all_left : s.tasks ≡ messages
    pub none_done : s.done ≡ []

  -- The end of the round.
  over :
      (messages : List ℕ) (t : Loop)
      → AllWait (start messages) messages t
      → Forgotten messages (after_submit execute limit (some 0) t)
  unfolding after_submit submit check_stop start
  over messages t h = record {
    ended =
        let q = h.queue_empty in
        let c = h.same_count in
        let f = h.same_submit_failed in let g = h.same_stop in rw (q, c, f, g) refl;
    no_exception = h.same_failed;
    no_submit_error = h.same_submit_failed;
    all_left = h.tasks_all;
    none_done = h.same_done;
  }

  first_round :
      (messages : List ℕ) (a : SocketAnswer)
      → 0 < limit
      → length messages ≤ limit
      → ((c m : ℕ) → c < length messages → execute c m ≡ Status.waiting)
      → ((n : ℕ) → a.returned n ≡ some 0)
      → Forgotten messages (loop_round execute limit a (start messages))
  unfolding start loop_round refill emplace
  first_round messages a p l w z =
      let h =
        emplace_local_request-AllWait (length messages) messages (start messages) refl
          (omega (arith, l)) (omega arith) w in
      let b = lt→ltb 0 limit p in
      let t = emplace_local_request execute limit messages (start messages) in
      rw (b, z (length t.queued)) (over messages t h)

  -- Where all messages become tasks that wait for the socket, and the first `submit` returns 0, as it
  -- does where the poll times out, the loop ends at once without an exception: all the tasks are
  -- still there, and no message has been finished.
  pub send_receive-timeout :
      (messages : List ℕ) (a : SocketAnswer) (answers : List SocketAnswer)
      → 0 < limit
      → length messages ≤ limit
      → ((c m : ℕ) → c < length messages → execute c m ≡ Status.waiting)
      → ((n : ℕ) → a.returned n ≡ some 0)
      → Forgotten messages (send_receive execute limit (a ∷ answers) (start messages))
  unfolding send_receive start
  send_receive-timeout messages a answers p l w z =
      let f = first_round messages a p l w z in
      subst (Forgotten messages)
        (sym (send_receive-stopped answers (loop_round execute limit a (start messages)) f.ended)) f
