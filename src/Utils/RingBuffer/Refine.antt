-- ===== src/Utils/RingBuffer/Refine.antt =====
-- The ring buffer behaves as a bounded first-in first-out queue of the elements that it holds.
use myblob.Base.{
  ℕ, ◌+◌, ◌-◌, ◌≤◌, ◌<◌, ◌%◌, ◌≡◌, inl, inr, refl, ap, List, [], ◌∷◌, ◌++◌, Bool, true, false, not,
  ◌&&◌, ◌==◌, Option, none, some, arith, length, leb, ltb, leb→le, if◌then◌else◌, Bool-cases,
}
use mathlib.Core.Path.{ap₂, subst}
use native.Mathlib.Decide.{dec_lt}
use myblob.Base.Words.{u64_max, add64, sub64}
use myblob.Utils.RingBuffer.{RingBuffer, insert, insert_all, consume, write_all, empty}
use myblob.Utils.RingBuffer.Window.{window, length-window, window-write_all, window_of_pos}
use myblob.Utils.RingBuffer.Inv.{IsValid, insert-IsValid, insert_all-IsValid, consume-IsValid}

-- What a client can ask, and what it sees of each call.
pub data Op {ℓ} (T : Type ℓ) : Type ℓ where
  put : T → Op T
  put_all : List T → Op T
  get : Op T

pub data Reply {ℓ} (T : Type ℓ) : Type ℓ where
  accepted : Bool → Reply T
  got : Option T → Reply T

-- The specification: a queue of at most `cap` elements, oldest first.
module _ {ℓ} {T : Type ℓ} (cap : ℕ) where
  unfoldable pub queue_put_all : List T → List T → Bool × List T
  queue_put_all q xs = if leb (length q + length xs) cap then (true, q ++ xs) else (false, q)

  unfoldable pub queue_get : List T → Option T × List T
  queue_get [] = (none, [])
  queue_get (x ∷ q) = (some x, q)

  unfoldable pub queue_run : List T → List (Op T) → List (Reply T)
  queue_run q [] = []
  queue_run q (put x ∷ ops) =
      let (b, q') = queue_put_all q (x ∷ []) in accepted b ∷ queue_run q' ops
  queue_run q (put_all xs ∷ ops) = let (b, q') = queue_put_all q xs in accepted b ∷ queue_run q' ops
  queue_run q (get ∷ ops) = let (o, q') = queue_get q in got o ∷ queue_run q' ops

module _ {ℓ} {T : Type ℓ} (blank : T) where
  abbrev pub contents : RingBuffer T → List T
  contents r = window blank r.buffer r.size r.seen_commited (r.insert_commited - r.seen_commited)

  -- A caller's sequence of calls, in order.
  unfoldable pub run : RingBuffer T → List (Op T) → List (Reply T)
  run r [] = []
  run r (put x ∷ ops) = let (i, r') = insert r x in accepted (not (i == u64_max)) ∷ run r' ops
  run r (put_all xs ∷ ops) =
      let (i, r') = insert_all r xs in accepted (not (i == u64_max)) ∷ run r' ops
  run r (get ∷ ops) = let (o, r') = consume blank r in got o ∷ run r' ops

  -- The two counters stay below 2 ^ 64, so no subtraction of the code wraps: its test is the
  -- queue's.
  insert_all_test :
      (r : RingBuffer T) (xs : List T)
      → IsValid r
      → (leb (length xs) r.size
          && ltb (sub64 r.insert_pending r.seen_commited) (sub64 (add64 r.size 1) (length xs)))
        ≡ leb (length (contents r) + length xs) r.size
  insert_all_test r xs v = ground (
    arith,
    length-window blank r.buffer r.size r.seen_commited (r.insert_commited - r.seen_commited),
  )

  contents-write_all :
      (r : RingBuffer T) (xs : List T)
      → IsValid r
      → r.insert_commited + length xs < u64_max
      → length (contents r) + length xs ≤ r.size
      → window blank
          (write_all r.size r.buffer (r.insert_pending % r.size) xs)
          r.size
          r.seen_commited
          (add64 r.insert_commited (length xs) - r.seen_commited)
        ≡ contents r ++ xs
  contents-write_all r xs v h l =
      let n = r.insert_commited - r.seen_commited in
      let at : r.insert_pending ≡ r.seen_commited + n = omega arith in
      let count : add64 r.insert_commited (length xs) - r.seen_commited ≡ n + length xs =
        omega arith in
      rw (at, count)
        (window-write_all blank r.buffer r.size r.seen_commited n xs v.sized v.positive
          (omega (arith, length-window blank r.buffer r.size r.seen_commited n)))

  -- A batch is stored whole or not at all, exactly when it fits.
  pub insert_all_refines :
      (r : RingBuffer T) (xs : List T)
      → IsValid r
      → r.insert_commited + length xs < u64_max
      → (not ((insert_all r xs).0 == u64_max), contents (insert_all r xs).1)
        ≡ queue_put_all r.size (contents r) xs
  unfolding insert_all queue_put_all
  insert_all_refines r xs v h = elim (Bool-cases (leb (length (contents r) + length xs) r.size)) [
    | inl fits ↦
        rw (insert_all_test r xs v, fits)
          (ap₂ (λ b q. (b, q)) (ground arith) (contents-write_all r xs v h (leb→le _ _ fits)))
    | inr full ↦ rw (insert_all_test r xs v, full)
  ]

  -- One insertion is a batch of one.
  insert-insert_all : (r : RingBuffer T) (x : T) → IsValid r → insert r x ≡ insert_all r (x ∷ [])
  unfolding insert insert_all write_all
  insert-insert_all r x v = ground arith

  pub insert_refines :
      (r : RingBuffer T) (x : T)
      → IsValid r
      → r.insert_commited + 1 < u64_max
      → (not ((insert r x).0 == u64_max), contents (insert r x).1)
        ≡ queue_put_all r.size (contents r) (x ∷ [])
  insert_refines r x v h =
      rw (insert-insert_all r x v) (insert_all_refines r (x ∷ []) v (omega arith))

  -- A read returns the oldest element, and fails exactly on the empty queue.
  pub consume_refines :
      (r : RingBuffer T)
      → IsValid r
      → ((consume blank r).0, contents (consume blank r).1) ≡ queue_get r.size (contents r)
  unfolding consume queue_get
  consume_refines r v = elim (dec_lt r.seen_commited r.insert_commited) [
    | yes some_left ↦
        let left = r.insert_commited - (r.seen_commited + 1) in
        let test : ltb r.seen_pending r.insert_commited ≡ true = ground arith in
        let next : add64 r.seen_commited 1 ≡ r.seen_commited + 1 = omega arith in
        let split =
          window_of_pos blank r.buffer r.size r.seen_commited (r.insert_commited - r.seen_commited)
            left (omega arith) in
        rw (test, split, next, v.reads_done)
    | no nothing_left ↦
        let test : ltb r.seen_pending r.insert_commited ≡ false = ground arith in
        let gone : r.insert_commited - r.seen_commited ≡ 0 = omega arith in rw (test, gone)
  ]

  -- `empty` says whether the queue holds anything.
  pub empty_refines : (r : RingBuffer T) → IsValid r → empty r ≡ (length (contents r) == 0)
  unfolding empty
  empty_refines r v = ground (
    arith,
    length-window blank r.buffer r.size r.seen_commited (r.insert_commited - r.seen_commited),
  )

  -- The number of elements that a sequence of calls may insert.
  abbrev pub offered : List (Op T) → ℕ
  offered [] = 0
  offered (put x ∷ ops) = 1 + offered ops
  offered (put_all xs ∷ ops) = length xs + offered ops
  offered (get ∷ ops) = offered ops

  insert_all-count :
      (r : RingBuffer T) (xs : List T)
      → IsValid r
      → r.insert_commited + length xs < u64_max
      → ((insert_all r xs).1.insert_commited ≤ r.insert_commited + length xs)
        × ((insert_all r xs).1.size ≡ r.size)
  unfolding insert_all
  insert_all-count r xs v h = ground arith

  consume-count :
      (r : RingBuffer T)
      → ((consume blank r).1.insert_commited ≡ r.insert_commited)
        × ((consume blank r).1.size ≡ r.size)
  unfolding consume
  consume-count r = ground arith

  -- Whatever calls a client makes in turn on a valid buffer, it sees the replies of the bounded
  -- queue of the buffer's size and contents, as long as the elements committed and those offered
  -- stay below the largest 64-bit number.
  pub run_refines :
      (r : RingBuffer T) (ops : List (Op T))
      → IsValid r
      → r.insert_commited + offered ops < u64_max
      → run r ops ≡ queue_run r.size (contents r) ops
  unfolding run queue_run
  run_refines r [] v h = refl
  run_refines r (put x ∷ ops) v h =
      let r' = (insert r x).1 in
      let same = insert-insert_all r x v in
      let counts = insert_all-count r (x ∷ []) v (omega arith) in
      let size : r'.size ≡ r.size = rw same counts.1 in
      let bound : r'.insert_commited ≤ r.insert_commited + 1 = rw same counts.0 in
      rw (← insert_refines r x v (omega arith)) (
        ap (λ t. accepted (not ((insert r x).0 == u64_max)) ∷ t)
          (subst (λ s. run r' ops ≡ queue_run s (contents r') ops) size
            (run_refines r' ops (insert-IsValid r x v (omega arith)) (omega arith))))
  run_refines r (put_all xs ∷ ops) v h =
      let r' = (insert_all r xs).1 in
      let counts = insert_all-count r xs v (omega arith) in
      rw (← insert_all_refines r xs v (omega arith)) (
        ap (λ t. accepted (not ((insert_all r xs).0 == u64_max)) ∷ t)
          (subst (λ s. run r' ops ≡ queue_run s (contents r') ops) counts.1
            (run_refines r' ops (insert_all-IsValid r xs v (omega arith)) (omega arith))))
  run_refines r (get ∷ ops) v h =
      let r' = (consume blank r).1 in
      let counts = consume-count r in
      rw (← consume_refines r v) (
        ap (λ t. got (consume blank r).0 ∷ t)
          (subst (λ s. run r' ops ≡ queue_run s (contents r') ops) counts.1
            (run_refines r' ops (consume-IsValid blank r v) (omega arith))))
