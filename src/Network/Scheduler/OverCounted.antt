-- ===== src/Network/Scheduler/OverCounted.antt =====
-- A `submit` that counts more than the requests: `sendReceive` in
-- src/network/tasked_send_receiver.cpp with `submit` of src/network/io_uring_socket.cpp, which counts
-- the linked timeouts.
use myblob.Base.{ℕ, ◌<◌, ◌≤◌, ◌≡◌, false, some, List, [], ◌∷◌, length}
use myblob.Network.Scheduler.{Status, SocketAnswer, Loop}

-- Each `submit` succeeds and returns at least the number of new requests.
abbrev pub CountsAll : List SocketAnswer → Type 0
CountsAll [] = Unit
CountsAll (a ∷ answers) =
    ((n : ℕ) → (k : ℕ) × (a.returned n ≡ some k) × (n ≤ k)) × CountsAll answers

module _ (execute : ℕ → ℕ → Status) (limit : ℕ) where
  -- The count is more than the requests in flight.
  record Over (s : Loop) : Type 0 where
    no_submit_error : s.submit_failed ≡ false
    more : length s.in_flight < s.count

  -- What the tasks that begin leave as it was.
  record Kept (s t : Loop) : Type 0 where
    same_in_flight : t.in_flight ≡ s.in_flight
    same_count : t.count ≡ s.count
    same_submit_failed : t.submit_failed ≡ s.submit_failed
    queued_more : length s.queued ≤ length t.queued
