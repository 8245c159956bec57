-- ===== src/Utils/RingBuffer/Tests.antt =====
-- Runs of the ring buffer, and its theorems at concrete inputs.
use myblob.Base.{ℕ, ◌≡◌, ◌≤◌, refl, List, [], ◌∷◌, ◌++◌, true, false, none, some, arith, length}
use myblob.Utils.RingBuffer.{RingBuffer, init, insert, insert_all, consume}
use myblob.Utils.RingBuffer.Inv.{IsValid}
use myblob.Utils.RingBuffer.Refine.{
  Op, put, put_all, get, accepted, got, run, queue_run, run_refines,
}
use myblob.Utils.RingBuffer.Threads.{
  Event, call_insert, call_consume, producer_moves, consumer_moves, schedule, start, advance,
}
use myblob.Utils.RingBuffer.Threads.Fifo.{schedule_fifo}

-- Slots 0, 1 and 2 after five insertions and three reads: 14 stands before 13.
abbrev wrapped : RingBuffer ℕ
wrapped = record {
  buffer = 13 ∷ 14 ∷ 12 ∷ [];
  size = 3;
  insert_pending = 5;
  insert_commited = 5;
  seen_pending = 3;
  seen_commited = 3;
}

wrapped-IsValid : IsValid wrapped
wrapped-IsValid = omega arith

abbrev calls : List (Op ℕ)
calls = put_all (15 ∷ 16 ∷ []) ∷ put 15 ∷ put 16 ∷ get ∷ get ∷ get ∷ get ∷ []

run-wrapped :
    run 0 wrapped calls
    ≡ accepted false
      ∷ accepted true
      ∷ accepted false
      ∷ got (some 13)
      ∷ got (some 14)
      ∷ got (some 15)
      ∷ got none
      ∷ []
unfolding run insert insert_all consume
run-wrapped = refl

run_refines_example : run 0 wrapped calls ≡ queue_run 3 (13 ∷ 14 ∷ []) calls
run_refines_example = run_refines 0 wrapped calls wrapped-IsValid (omega arith)

-- A reader waits for the element that a producer has claimed but not committed.
abbrev race : List (Event ℕ)
race =
    call_insert 7
    ∷ producer_moves
    ∷ call_consume
    ∷ producer_moves
    ∷ producer_moves
    ∷ consumer_moves
    ∷ consumer_moves
    ∷ producer_moves
    ∷ consumer_moves
    ∷ producer_moves
    ∷ call_consume
    ∷ consumer_moves
    ∷ consumer_moves
    ∷ call_insert 8
    ∷ consumer_moves
    ∷ producer_moves
    ∷ consumer_moves
    ∷ consumer_moves
    ∷ []

race_returns : (schedule 0 race (start 0 1)).taken ≡ 7 ∷ []
unfolding schedule advance start init
race_returns = refl

schedule_fifo_example :
    let m = schedule 0 race (start 0 1) in
    (rest : List ℕ) × (m.written ≡ m.taken ++ rest) × (length rest ≤ 1)
schedule_fifo_example = schedule_fifo 0 1 race (omega arith) (omega arith) (omega arith)
