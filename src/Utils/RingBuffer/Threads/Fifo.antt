-- ===== src/Utils/RingBuffer/Threads/Fifo.antt =====
-- Whatever way the threads interleave, the elements come out in the order in which they went in.
use myblob.Base.{
  ℕ, ◌+◌, ◌-◌, ◌≤◌, ◌<◌, ◌^◌, ◌≡◌, refl, ◌∙◌, List, [], ◌∷◌, ◌++◌, arith, length, length-replicate,
}
use myblob.Base.Words.{u64_max}
use myblob.Utils.RingBuffer.{init}
use myblob.Utils.RingBuffer.Window.{window, length-window}
use myblob.Utils.RingBuffer.Threads.Knows.{
  Inv, Next, enter_insert-Inv, enter_consume-Inv, produce-Inv, take_out-Inv,
}
use myblob.Utils.RingBuffer.Threads.{
  Producer, Consumer, Machine, Event, call_insert, call_consume, producer_moves, consumer_moves,
  enter_insert, enter_consume, produce, take_out, advance, schedule, start,
}

module _ {T : Type 0} (blank : T) where
  advance-Inv :
      (w k : ℕ) (m : Machine T) (e : Event T)
      → Inv blank w k m
      → w + 1 < u64_max
      → Next blank w (advance blank e m)
  unfolding advance
  advance-Inv w k m (call_insert x) v h =
      (w, k, enter_insert-Inv blank w k x m m.producer refl v, omega arith)
  advance-Inv w k m call_consume v h =
      (w, k, enter_consume-Inv blank w k m m.consumer refl v, omega arith)
  advance-Inv w k m producer_moves v h = produce-Inv blank w k m m.producer refl v h
  advance-Inv w k m consumer_moves v h = take_out-Inv blank w k m m.consumer refl v (omega arith)

  schedule-Inv :
      (w k : ℕ) (m : Machine T) (es : List (Event T))
      → Inv blank w k m
      → w + length es < u64_max
      → (w' : ℕ) × (k' : ℕ) × Inv blank w' k' (schedule blank es m)
  unfolding schedule
  schedule-Inv w k m [] v h = (w, k, v)
  schedule-Inv w k m (e ∷ es) v h =
      let (w', k', v', l) = advance-Inv w k m e v (omega arith) in
      schedule-Inv w' k' (advance blank e m) es v' (omega arith)

  start-Inv : (size : ℕ) → 0 < size → size < 2 ^ 63 → Inv blank 0 0 (start blank size)
  unfolding start init
  start-Inv size h l = record {
    commits = refl;
    reads = refl;
    sized = length-replicate size blank;
    positive = h;
    small = l;
    behind = omega arith;
    within = omega arith;
    producer = refl;
    consumer = refl;
    history = refl;
  }

  start-size : (size : ℕ) → (start blank size).size ≡ size
  unfolding start init
  start-size size = refl

  enter_insert-size : (x : T) (p : Producer T) (m : Machine T) → (enter_insert x p m).size ≡ m.size
  unfolding enter_insert
  enter_insert-size x Producer.outside m = refl
  enter_insert-size x _ m = refl

  enter_consume-size : (c : Consumer T) (m : Machine T) → (enter_consume c m).size ≡ m.size
  unfolding enter_consume
  enter_consume-size Consumer.outside m = refl
  enter_consume-size _ m = refl

  produce-size : (p : Producer T) (m : Machine T) → (produce p m).size ≡ m.size
  unfolding produce
  produce-size (Producer.loaded x s c) m = ground arith
  produce-size Producer.outside m = refl
  produce-size _ m = refl

  take_out-size : (c : Consumer T) (m : Machine T) → (take_out blank c m).size ≡ m.size
  unfolding take_out
  take_out-size (Consumer.loaded i c) m = ground arith
  take_out-size Consumer.outside m = refl
  take_out-size _ m = refl

  advance-size : (e : Event T) (m : Machine T) → (advance blank e m).size ≡ m.size
  unfolding advance
  advance-size (call_insert x) m = enter_insert-size x m.producer m
  advance-size call_consume m = enter_consume-size m.consumer m
  advance-size producer_moves m = produce-size m.producer m
  advance-size consumer_moves m = take_out-size m.consumer m

  schedule-size : (es : List (Event T)) (m : Machine T) → (schedule blank es m).size ≡ m.size
  unfolding schedule
  schedule-size [] m = refl
  schedule-size (e ∷ es) m = schedule-size es (advance blank e m) ∙ advance-size e m

  -- However producers and consumers interleave over a new buffer of `size` slots, where `size` is
  -- positive and below 2 ^ 63 and the steps are fewer than 2 ^ 64 - 1: the elements returned are
  -- the first ones written, in their order, none lost or repeated, and at most `size` of the
  -- elements written are still to come.
  pub schedule_fifo :
      (size : ℕ) (es : List (Event T))
      → 0 < size
      → size < 2 ^ 63
      → length es < u64_max
      → let m = schedule blank es (start blank size) in
        (rest : List T) × (m.written ≡ m.taken ++ rest) × (length rest ≤ size)
  schedule_fifo size es h l b =
      let m = schedule blank es (start blank size) in
      let (w, k, v) = schedule-Inv 0 0 (start blank size) es (start-Inv size h l) (omega arith) in
      let same : m.size ≡ size = schedule-size es (start blank size) ∙ start-size size in
      (
        window blank m.buffer m.size k (w - k),
        v.history,
        omega (arith, length-window blank m.buffer m.size k (w - k), v.within),
      )
