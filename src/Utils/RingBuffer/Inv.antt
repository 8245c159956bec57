-- ===== src/Utils/RingBuffer/Inv.antt =====
-- The representation invariant of the ring buffer between two calls.
use mathlib.Core.Path.{◌≡◌}
use myblob.Base.{
  ℕ, ◌+◌, ◌^◌, ◌≤◌, ◌<◌, ◌%◌, refl, List, [], ◌∷◌, arith, length, length-set, length-replicate, set,
  leb, if◌then◌else◌,
}
use myblob.Utils.RingBuffer.{RingBuffer, init, insert, insert_all, consume, write_all}

pub record IsValid {ℓ} {T : Type ℓ} (r : RingBuffer T) : Type 0 where
  pub sized : length r.buffer ≡ r.size
  pub positive : 0 < r.size
  pub small : r.size < 2 ^ 63
  pub inserts_done : r.insert_pending ≡ r.insert_commited
  pub reads_done : r.seen_pending ≡ r.seen_commited
  pub behind : r.seen_commited ≤ r.insert_commited
  pub within : r.insert_commited ≤ r.seen_commited + r.size
  pub counted : r.insert_commited < 2 ^ 64

module _ {ℓ} {T : Type ℓ} where
  pub init-IsValid : (blank : T) (size : ℕ) → 0 < size → size < 2 ^ 63 → IsValid (init blank size)
  unfolding init
  init-IsValid blank size h k = record {
    sized = length-replicate size blank;
    positive = h;
    small = k;
    inserts_done = refl;
    reads_done = refl;
    behind = omega arith;
    within = omega arith;
    counted = omega arith;
  }

  pub insert-IsValid :
      (r : RingBuffer T) (tuple : T)
      → IsValid r
      → r.insert_commited + 1 < 2 ^ 64
      → IsValid (insert r tuple).1
  unfolding insert
  insert-IsValid r tuple v h = ground (arith, length-set r.buffer (r.insert_pending % r.size) tuple)

  pub length-write_all :
      (size : ℕ) (buffer : List T) (pos : ℕ) (tuples : List T)
      → length (write_all size buffer pos tuples) ≡ length buffer
  unfolding write_all
  length-write_all size buffer pos [] = refl
  length-write_all size buffer pos (t ∷ ts) = omega (
    arith,
    length-write_all size (set buffer pos t) (if leb size (pos + 1) then 0 else pos + 1) ts,
    length-set buffer pos t,
  )

  pub insert_all-IsValid :
      (r : RingBuffer T) (tuples : List T)
      → IsValid r
      → r.insert_commited + length tuples < 2 ^ 64
      → IsValid (insert_all r tuples).1
  unfolding insert_all
  insert_all-IsValid r tuples v h =
      ground (arith, length-write_all r.size r.buffer (r.insert_pending % r.size) tuples)

  pub consume-IsValid : (blank : T) (r : RingBuffer T) → IsValid r → IsValid (consume blank r).1
  unfolding consume
  consume-IsValid blank r v = ground arith
