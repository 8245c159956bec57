-- ===== src/Utils/RingBuffer/Threads.antt =====
-- include/utils/ring_buffer.hpp with threads: each load, store and atomic addition of `insert` and
-- `consume` is a step of its own, and the steps of a producer and of a consumer interleave.
-- The two spin locks let one producer and one consumer inside; a thread that finds its lock taken
-- spins, which changes nothing. Steps take effect in one order that all threads see.
pub mod Knows
pub mod Fifo
use myblob.Base.{ℕ, zero, ◌+◌, ◌%◌, List, [], ◌∷◌, ◌++◌, ltb, if◌then◌else◌, get_or, set, length}
use myblob.Base.Words.{add64, sub64}
use myblob.Utils.RingBuffer.{RingBuffer, init}

-- Where the thread that holds the insert lock stands, with its local variables.
pub data Producer {ℓ} (T : Type ℓ) : Type ℓ where
  outside : Producer T
  locked : T → Producer T
  loaded_seen : T → ℕ → Producer T
  loaded : T → ℕ → ℕ → Producer T
  claimed : T → ℕ → Producer T
  stored : T → ℕ → Producer T

-- Where the thread that holds the consume lock stands.
pub data Consumer {ℓ} (T : Type ℓ) : Type ℓ where
  outside : Consumer T
  locked : Consumer T
  loaded_insert : ℕ → Consumer T
  loaded : ℕ → ℕ → Consumer T
  claimed : ℕ → Consumer T
  copied : ℕ → T → Consumer T

-- `written` and `taken` record the elements committed and returned so far; no step reads them.
pub record Machine {ℓ} (T : Type ℓ) : Type ℓ where
  pub ring : RingBuffer T
  pub open ring use *
  pub producer : Producer T
  pub consumer : Consumer T
  pub written : List T
  pub taken : List T

pub data Event {ℓ} (T : Type ℓ) : Type ℓ where
  call_insert : T → Event T
  call_consume : Event T
  producer_moves : Event T
  consumer_moves : Event T

module _ {ℓ} {T : Type ℓ} where
  unfoldable pub enter_insert : T → Producer T → Machine T → Machine T
  enter_insert x Producer.outside m = record m { producer = Producer.locked x }
  enter_insert x p m = m

  unfoldable pub enter_consume : Consumer T → Machine T → Machine T
  enter_consume Consumer.outside m = record m { consumer = Consumer.locked }
  enter_consume c m = m

  unfoldable pub produce : Producer T → Machine T → Machine T
  produce Producer.outside m = m
  produce (Producer.locked x) m = record m { producer = Producer.loaded_seen x m.seen_commited }
  produce (Producer.loaded_seen x s) m = record m {
    producer = Producer.loaded x s m.insert_pending;
  }
  produce (Producer.loaded x s c) m =
      if ltb (sub64 c s) m.size
      then record m {
        ring = record m.ring { insert_pending = add64 m.insert_pending 1 };
        producer = Producer.claimed x c;
      }
      else record m { producer = Producer.outside }
  produce (Producer.claimed x c) m = record m {
    ring = record m.ring { buffer = set m.buffer (c % m.size) x };
    producer = Producer.stored x c;
  }
  produce (Producer.stored x c) m = record m {
    ring = record m.ring { insert_commited = add64 m.insert_commited 1 };
    producer = Producer.outside;
    written = m.written ++ x ∷ [];
  }

module _ {ℓ} {T : Type ℓ} (blank : T) where
  unfoldable pub take_out : Consumer T → Machine T → Machine T
  take_out Consumer.outside m = m
  take_out Consumer.locked m = record m { consumer = Consumer.loaded_insert m.insert_commited }
  take_out (Consumer.loaded_insert i) m = record m { consumer = Consumer.loaded i m.seen_pending }
  take_out (Consumer.loaded i c) m =
      if ltb c i
      then record m {
        ring = record m.ring { seen_pending = add64 m.seen_pending 1 };
        consumer = Consumer.claimed c;
      }
      else record m { consumer = Consumer.outside }
  take_out (Consumer.claimed c) m = record m {
    consumer = Consumer.copied c (get_or m.buffer (c % m.size) blank);
  }
  take_out (Consumer.copied c v) m = record m {
    ring = record m.ring { seen_commited = add64 m.seen_commited 1 };
    consumer = Consumer.outside;
    taken = m.taken ++ v ∷ [];
  }

  unfoldable pub advance : Event T → Machine T → Machine T
  unfolding enter_insert enter_consume produce take_out
  advance (call_insert x) m = enter_insert x m.producer m
  advance call_consume m = enter_consume m.consumer m
  advance producer_moves m = produce m.producer m
  advance consumer_moves m = take_out m.consumer m

  unfoldable pub schedule : List (Event T) → Machine T → Machine T
  schedule [] m = m
  schedule (e ∷ es) m = schedule es (advance e m)

  unfoldable pub start : ℕ → Machine T
  start size = record {
    ring = init blank size;
    producer = Producer.outside;
    consumer = Consumer.outside;
    written = [];
    taken = [];
  }
