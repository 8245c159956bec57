-- ===== src/Network/Scheduler.antt =====
-- The loop of one scheduler: `TaskedSendReceiver::sendReceive` in
-- src/network/tasked_send_receiver.cpp, for the local queue and one invocation of it. Messages are
-- told apart by numbers. Parameters are what a task's `execute` returns, by the number of calls of it
-- so far, and the limit of tasks. What `complete` and `submit` of the socket give in a round is a
-- `SocketAnswer`: the sockets count different things in `submit`, the requests that are ready
-- (src/network/poll_socket.cpp) or the entries of the ring, timeouts included
-- (src/network/io_uring_socket.cpp), so its result is any number.
pub mod Counts
pub mod Sound
pub mod Left
pub mod Timeout
pub mod OverCounted
pub mod Tests
use myblob.Base.{
  ℕ, zero, suc, ◌+◌, ◌-◌, Bool, true, false, not, ◌&&◌, ◌||◌, Option, none, some, List, [], ◌∷◌,
  ◌++◌, ltb, leb, ◌==◌, if◌then◌else◌, length, get_elem?,
}

-- `thrown` is an exception out of `execute`. The states that are not final are `waiting`, where the
-- socket has taken a request, and `unsent`, where it has refused it.
pub data Status : Type 0 where
  waiting unsent finished aborted thrown : Status

-- Which of the requests in flight `complete` gives, or `none` where it throws or gives a null
-- pointer or an entry without a task; and what `submit` returns where so many requests are new, or
-- `none` where that is negative.
pub record SocketAnswer : Type 0 where
  pub completed : Option ℕ
  pub returned : ℕ → Option ℕ

-- `queue` is `_submissions`, `tasks` are the messages of `_messageTasks`. The requests that
-- the socket has taken are in `queued` until they are submitted, then in `in_flight`. `done` are the
-- messages whose `finish` has been called, `failed` says whether there is a `firstException`, and
-- `submit_failed` whether `submit` has ended the loop by an exception.
pub record Loop : Type 0 where
  pub queue : List ℕ
  pub tasks : List ℕ
  pub queued : List ℕ
  pub in_flight : List ℕ
  pub count : ℕ
  pub done : List ℕ
  pub failed : Bool
  pub submit_failed : Bool
  pub stop_deamon : Bool
  pub calls : ℕ

unfoldable pub start : List ℕ → Loop
start queue = record {
  queue = queue;
  tasks = [];
  queued = [];
  in_flight = [];
  count = 0;
  done = [];
  failed = false;
  submit_failed = false;
  stop_deamon = false;
  calls = 0;
}

-- Without the first place that holds the message.
unfoldable pub erase : ℕ → List ℕ → List ℕ
erase m [] = []
erase m (x ∷ xs) = let rest = erase m xs in if x == m then xs else x ∷ rest

unfoldable pub remove_at : ℕ → List ℕ → List ℕ
remove_at i [] = []
remove_at zero (x ∷ xs) = xs
remove_at (suc i) (x ∷ xs) = x ∷ remove_at i xs

abbrev pub no_more : List ℕ → Bool
no_more [] = true
no_more (m ∷ ms) = false

module _ (execute : ℕ → ℕ → Status) (concurrent_requests : ℕ) where
  -- A message that has just been taken from the queue, of which `queue` is left.
  unfoldable pub begin_task : Status → ℕ → List ℕ → Loop → Loop
  begin_task Status.waiting m queue s = record s {
    queue = queue;
    tasks = s.tasks ++ m ∷ [];
    queued = s.queued ++ m ∷ [];
    calls = s.calls + 1;
  }
  begin_task Status.unsent m queue s = record s {
    queue = queue;
    tasks = s.tasks ++ m ∷ [];
    calls = s.calls + 1;
  }
  begin_task Status.thrown m queue s = record s {
    queue = queue;
    failed = true;
    calls = s.calls + 1;
  }
  begin_task _ m queue s = record s { queue = queue; done = s.done ++ m ∷ []; calls = s.calls + 1 }

  -- Whether `emplaceLocalRequest` goes on after a task with this status.
  unfoldable pub goes_on : Status → ℕ → Bool
  goes_on Status.waiting tasks = not (leb concurrent_requests tasks)
  goes_on Status.unsent tasks = not (leb concurrent_requests tasks)
  goes_on Status.thrown tasks = false
  goes_on _ tasks = true

  -- `emplaceLocalRequest` on what is left of the queue.
  unfoldable pub emplace_local_request : List ℕ → Loop → Loop
  emplace_local_request [] s = s
  emplace_local_request (m ∷ queue) s =
      let status = execute s.calls m in
      let s' = begin_task status m queue s in
      let rest = emplace_local_request queue s' in
      if goes_on status (length s'.tasks) then rest else s'

  -- A task whose request is complete.
  unfoldable pub advance : Status → ℕ → Loop → Loop
  advance Status.waiting m s = record s { queued = s.queued ++ m ∷ []; calls = s.calls + 1 }
  advance Status.unsent m s = record s { calls = s.calls + 1 }
  advance Status.thrown m s = record s { failed = true; calls = s.calls + 1 }
  advance _ m s = record s { tasks = erase m s.tasks; done = s.done ++ m ∷ []; calls = s.calls + 1 }

  unfoldable pub complete : ℕ → ℕ → Loop → Loop
  complete i m s =
      advance (execute s.calls m) m
        (record s { in_flight = remove_at i s.in_flight; count = s.count - 1 })

  abbrev pub has_room : Loop → Bool
  has_room s = not s.stop_deamon && (ltb (length s.tasks) concurrent_requests && not s.failed)

  unfoldable pub emplace : Loop → Loop
  emplace s = if has_room s then emplace_local_request s.queue s else s

  -- `submit` has returned `n`.
  unfoldable pub submit : ℕ → Loop → Loop
  submit n s = record s { queued = []; in_flight = s.in_flight ++ s.queued; count = s.count + n }

  unfoldable pub check_stop : Loop → Loop
  check_stop s = record s {
    stop_deamon = s.stop_deamon || ((no_more s.queue || s.failed) && (s.count == 0));
  }

  unfoldable pub after_submit : Option ℕ → Loop → Loop
  after_submit none s = record s { submit_failed = true }
  after_submit (some n) s = check_stop (submit n s)

  -- The rest of a round.
  unfoldable pub refill : (ℕ → Option ℕ) → Loop → Loop
  refill returned s =
      let filled = emplace s in after_submit (returned (length filled.queued)) filled

  -- After `complete`: without a task the loop continues.
  unfoldable pub after_complete : (ℕ → Option ℕ) → Option ℕ → ℕ → Loop → Loop
  after_complete returned none i s = s
  after_complete returned (some m) i s = refill returned (complete i m s)

  unfoldable pub answered : (ℕ → Option ℕ) → Option ℕ → Loop → Loop
  answered returned none s = s
  answered returned (some i) s = after_complete returned (get_elem? s.in_flight i) i s

  -- One round of the loop, with what the socket gives.
  unfoldable pub loop_round : SocketAnswer → Loop → Loop
  loop_round a s = if ltb 0 s.count then answered a.returned a.completed s else refill a.returned s

  abbrev pub is_running : Loop → Bool
  is_running s = not s.submit_failed && (not s.stop_deamon || ltb 0 s.count)

  unfoldable pub send_receive : List SocketAnswer → Loop → Loop
  send_receive [] s = s
  send_receive (a ∷ answers) s =
      let rest = send_receive answers (loop_round a s) in if is_running s then rest else s
