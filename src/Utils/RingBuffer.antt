-- ===== src/Utils/RingBuffer.antt =====
-- include/utils/ring_buffer.hpp: the circular queue, one call at a time. `blank` is the value-
-- initialised `T{}` that fills the buffer at first. The template argument `wait` is false, its
-- default and the only instance the repository has: a call that finds no room returns at once.
-- Each call holds its side's lock from start to end; `Threads` takes the calls apart.
pub mod Inv
pub mod Window
pub mod Refine
pub mod Threads
mod Tests
use myblob.Base.{
  ℕ, zero, suc, ◌+◌, ◌-◌, ◌%◌, ◌==◌, Bool, ◌&&◌, Option, none, some, List, [], ◌∷◌, ltb, leb,
  if◌then◌else◌, get_or, set, length, replicate,
}
use myblob.Base.Words.{add64, sub64, u64_max}

pub record RingBuffer {ℓ} (T : Type ℓ) : Type ℓ where
  pub buffer : List T
  pub size : ℕ
  pub insert_pending : ℕ
  pub insert_commited : ℕ
  pub seen_pending : ℕ
  pub seen_commited : ℕ

module _ {ℓ} {T : Type ℓ} (blank : T) where
  unfoldable pub init : ℕ → RingBuffer T
  init size = record {
    buffer = replicate size blank;
    size = size;
    insert_pending = 0;
    insert_commited = 0;
    seen_pending = 0;
    seen_commited = 0;
  }

  unfoldable pub consume : RingBuffer T → Option T × RingBuffer T
  consume r =
      if ltb r.seen_pending r.insert_commited
      then (
        some (get_or r.buffer (r.seen_pending % r.size) blank),
        record r { seen_pending = add64 r.seen_pending 1; seen_commited = add64 r.seen_commited 1 },
      )
      else (none, r)

module _ {ℓ} {T : Type ℓ} where
  unfoldable pub insert : RingBuffer T → T → ℕ × RingBuffer T
  insert r tuple =
      if ltb (sub64 r.insert_pending r.seen_commited) r.size
      then (
        r.insert_pending,
        record r {
          buffer = set r.buffer (r.insert_pending % r.size) tuple;
          insert_pending = add64 r.insert_pending 1;
          insert_commited = add64 r.insert_commited 1;
        },
      )
      else (u64_max, r)

  -- The loop that writes from `pos` on and goes back to 0 at the end of the buffer.
  unfoldable pub write_all : ℕ → List T → ℕ → List T → List T
  write_all size buffer pos [] = buffer
  write_all size buffer pos (tuple ∷ tuples) =
      write_all size (set buffer pos tuple) (if leb size (pos + 1) then 0 else pos + 1) tuples

  unfoldable pub insert_all : RingBuffer T → List T → ℕ × RingBuffer T
  unfolding write_all
  insert_all r tuples =
      let n = length tuples in
      if leb n r.size && ltb (sub64 r.insert_pending r.seen_commited) (sub64 (add64 r.size 1) n)
      then (
        r.insert_pending,
        record r {
          buffer = write_all r.size r.buffer (r.insert_pending % r.size) tuples;
          insert_pending = add64 r.insert_pending n;
          insert_commited = add64 r.insert_commited n;
        },
      )
      else (u64_max, r)

  unfoldable pub empty : RingBuffer T → Bool
  empty r = sub64 r.insert_commited r.seen_commited == 0
