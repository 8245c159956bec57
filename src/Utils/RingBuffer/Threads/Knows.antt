-- ===== src/Utils/RingBuffer/Threads/Knows.antt =====
-- What holds between any two steps of the threads, and that each step of one side keeps it.
use mathlib.Core.Path.{subst}
use native.Mathlib.Nat.{mod-lt}
use myblob.Base.{
  ℕ, suc, ◌+◌, ◌-◌, ◌≤◌, ◌<◌, ◌^◌, ◌%◌, ◌≡◌, refl, sym, ap, ◌∙◌, [], ◌∷◌, ◌++◌, arith, length,
  length-set, set, get_or, get_or-set_self, get_or-set_ne, append_assoc,
}
use myblob.Base.Words.{mod_ne_of_close, u64_max}
use myblob.Utils.RingBuffer.Window.{window, window-set, window-snoc, window_of_pos}
use myblob.Utils.RingBuffer.Threads.{
  Producer, Consumer, Machine, enter_insert, enter_consume, produce, take_out,
}

module _ {T : Type 0} (blank : T) where
  -- What the locals of a producer say, with `w` elements committed and `k` returned.
  abbrev pub ProducerKnows : ℕ → ℕ → Machine T → Producer T → Type 0
  ProducerKnows w k m Producer.outside = m.insert_pending ≡ w
  ProducerKnows w k m (Producer.locked x) = m.insert_pending ≡ w
  ProducerKnows w k m (Producer.loaded_seen x s) = (m.insert_pending ≡ w) × (s ≤ k)
  ProducerKnows w k m (Producer.loaded x s c) = (m.insert_pending ≡ w) × (s ≤ k) × (c ≡ w)
  ProducerKnows w k m (Producer.claimed x c) =
      (m.insert_pending ≡ w + 1) × (c ≡ w) × (w < k + m.size)
  ProducerKnows w k m (Producer.stored x c) =
      (m.insert_pending ≡ w + 1)
      × (c ≡ w)
      × (w < k + m.size)
      × (get_or m.buffer (w % m.size) blank ≡ x)

  abbrev pub ConsumerKnows : ℕ → ℕ → Machine T → Consumer T → Type 0
  ConsumerKnows w k m Consumer.outside = m.seen_pending ≡ k
  ConsumerKnows w k m Consumer.locked = m.seen_pending ≡ k
  ConsumerKnows w k m (Consumer.loaded_insert i) = (m.seen_pending ≡ k) × (i ≤ w)
  ConsumerKnows w k m (Consumer.loaded i c) = (m.seen_pending ≡ k) × (i ≤ w) × (c ≡ k)
  ConsumerKnows w k m (Consumer.claimed c) = (m.seen_pending ≡ k + 1) × (c ≡ k) × (k < w)
  ConsumerKnows w k m (Consumer.copied c v) =
      (m.seen_pending ≡ k + 1) × (c ≡ k) × (k < w) × (get_or m.buffer (k % m.size) blank ≡ v)

  pub record Inv (w k : ℕ) (m : Machine T) : Type 0 where
    pub commits : m.insert_commited ≡ w
    pub reads : m.seen_commited ≡ k
    pub sized : length m.buffer ≡ m.size
    pub positive : 0 < m.size
    pub small : m.size < 2 ^ 63
    pub behind : k ≤ w
    pub within : w ≤ k + m.size
    pub producer : ProducerKnows w k m m.producer
    pub consumer : ConsumerKnows w k m m.consumer
    pub history : m.written ≡ m.taken ++ window blank m.buffer m.size k (w - k)

  pub enter_insert-Inv :
      (w k : ℕ) (x : T) (m : Machine T) (p : Producer T)
      → m.producer ≡ p
      → Inv w k m
      → Inv w k (enter_insert x p m)
  unfolding enter_insert
  enter_insert-Inv w k x m Producer.outside e v =
      ground (arith, subst (ProducerKnows w k m) e v.producer)
  enter_insert-Inv w k x m _ e v = v

  pub enter_consume-Inv :
      (w k : ℕ) (m : Machine T) (c : Consumer T)
      → m.consumer ≡ c
      → Inv w k m
      → Inv w k (enter_consume c m)
  unfolding enter_consume
  enter_consume-Inv w k m Consumer.outside e v =
      ground (arith, subst (ConsumerKnows w k m) e v.consumer)
  enter_consume-Inv w k m _ e v = v

  -- What one side knows survives the other side's steps.
  consumer_kept :
      (w w' k : ℕ) (m m' : Machine T) (c : Consumer T)
      → m'.seen_pending ≡ m.seen_pending
      → m'.size ≡ m.size
      → (k < w → get_or m'.buffer (k % m.size) blank ≡ get_or m.buffer (k % m.size) blank)
      → w ≤ w'
      → ConsumerKnows w k m c
      → ConsumerKnows w' k m' c
  consumer_kept w w' k m m' Consumer.outside p s b l h = omega arith
  consumer_kept w w' k m m' Consumer.locked p s b l h = omega arith
  consumer_kept w w' k m m' (Consumer.loaded_insert i) p s b l h = omega arith
  consumer_kept w w' k m m' (Consumer.loaded i c) p s b l h = omega arith
  consumer_kept w w' k m m' (Consumer.claimed c) p s b l h = omega arith
  consumer_kept w w' k m m' (Consumer.copied c v) p s b l h =
      (omega arith, omega arith, omega arith, rw s (b h.2 ∙ h.3))

  producer_kept :
      (w k k' : ℕ) (m m' : Machine T) (p : Producer T)
      → m'.insert_pending ≡ m.insert_pending
      → m'.size ≡ m.size
      → m'.buffer ≡ m.buffer
      → k ≤ k'
      → ProducerKnows w k m p
      → ProducerKnows w k' m' p
  producer_kept w k k' m m' Producer.outside i s b l h = omega arith
  producer_kept w k k' m m' (Producer.locked x) i s b l h = omega arith
  producer_kept w k k' m m' (Producer.loaded_seen x n) i s b l h = omega arith
  producer_kept w k k' m m' (Producer.loaded x n c) i s b l h = omega arith
  producer_kept w k k' m m' (Producer.claimed x c) i s b l h = omega arith
  producer_kept w k k' m m' (Producer.stored x c) i s b l h =
      (omega arith, omega arith, omega arith, rw (s, b) h.3)

  store-Inv :
      (w k : ℕ) (m : Machine T) (x : T) (c : ℕ)
      → ProducerKnows w k m (Producer.claimed x c)
      → Inv w k m
      → Inv w k (produce (Producer.claimed x c) m)
  unfolding produce
  store-Inv w k m x c at v =
      let b' = set m.buffer (w % m.size) x in
      let place : w % m.size < length m.buffer = omega (arith, mod-lt w {m = m.size} v.positive) in
      let count : k + (w - k) ≡ w = omega arith in
      rw at.1 (record {
        commits = v.commits;
        reads = v.reads;
        sized = length-set m.buffer (w % m.size) x ∙ v.sized;
        positive = v.positive;
        small = v.small;
        behind = v.behind;
        within = v.within;
        producer = (at.0, refl, at.2, get_or-set_self m.buffer (w % m.size) x blank place);
        consumer =
            consumer_kept w w k m (produce (Producer.claimed x w) m) m.consumer refl refl
              (λ l.
                get_or-set_ne m.buffer x blank
                  (λ e. mod_ne_of_close m.size k w l (omega arith) (sym e)))
              (omega arith) v.consumer;
        history =
            v.history
            ∙ ap (λ t. m.taken ++ t)
                (sym (window-set blank m.buffer m.size k (w - k) w x (omega arith) at.2));
      })

  commit-Inv :
      (w k : ℕ) (m : Machine T) (x : T) (c : ℕ)
      → ProducerKnows w k m (Producer.stored x c)
      → Inv w k m
      → w + 1 < u64_max
      → Inv (w + 1) k (produce (Producer.stored x c) m)
  unfolding produce
  commit-Inv w k m x c at v h =
      let count : w + 1 - k ≡ suc (w - k) = omega arith in
      let last : k + (w - k) ≡ w = omega arith in
      let held = window blank m.buffer m.size k (w - k) in
      let longer : window blank m.buffer m.size k (suc (w - k)) ≡ held ++ x ∷ [] =
        window-snoc blank m.buffer m.size k (w - k) ∙ rw (last, at.3) in
      record {
        commits = omega arith;
        reads = v.reads;
        sized = v.sized;
        positive = v.positive;
        small = v.small;
        behind = omega arith;
        within = omega arith;
        producer = at.0;
        consumer =
            consumer_kept w (w + 1) k m (produce (Producer.stored x c) m) m.consumer refl refl
              (λ l. refl) (omega arith) v.consumer;
        history =
            ap (λ t. t ++ x ∷ []) v.history
            ∙ append_assoc m.taken held (x ∷ [])
            ∙ ap (λ t. m.taken ++ t) (rw count (sym longer));
      }

  release-Inv :
      (w k : ℕ) (m : Machine T) (x : T) (c : ℕ)
      → ConsumerKnows w k m (Consumer.copied c x)
      → Inv w k m
      → w < u64_max
      → Inv w (k + 1) (take_out blank (Consumer.copied c x) m)
  unfolding take_out
  release-Inv w k m x c at v h =
      let rest = window blank m.buffer m.size (k + 1) (w - (k + 1)) in
      let first = window_of_pos blank m.buffer m.size k (w - k) (w - (k + 1)) (omega arith) in
      record {
        commits = v.commits;
        reads = omega arith;
        sized = v.sized;
        positive = v.positive;
        small = v.small;
        behind = omega arith;
        within = omega arith;
        producer =
            producer_kept w k (k + 1) m (take_out blank (Consumer.copied c x) m) m.producer refl
              refl refl (omega arith) v.producer;
        consumer = at.0;
        history =
            v.history
            ∙ ap (λ t. m.taken ++ t) (first ∙ ap (λ y. y ∷ rest) at.3)
            ∙ sym (append_assoc m.taken (x ∷ []) rest);
      }

  abbrev pub Next : ℕ → Machine T → Type 0
  Next w m = (w' : ℕ) × (k' : ℕ) × Inv w' k' m × (w' ≤ w + 1)

  pub produce-Inv :
      (w k : ℕ) (m : Machine T) (p : Producer T)
      → m.producer ≡ p
      → Inv w k m
      → w + 1 < u64_max
      → Next w (produce p m)
  unfolding produce
  produce-Inv w k m Producer.outside e v h = (w, k, v, omega arith)
  produce-Inv w k m (Producer.locked x) e v h =
      let at = subst (ProducerKnows w k m) e v.producer in (w, k, ground (arith, at), omega arith)
  produce-Inv w k m (Producer.loaded_seen x s) e v h =
      let at = subst (ProducerKnows w k m) e v.producer in (w, k, ground (arith, at), omega arith)
  produce-Inv w k m (Producer.loaded x s c) e v h =
      let at = subst (ProducerKnows w k m) e v.producer in (w, k, ground (arith, at), omega arith)
  produce-Inv w k m (Producer.claimed x c) e v h =
      let at = subst (ProducerKnows w k m) e v.producer in
      (w, k, store-Inv w k m x c at v, omega arith)
  produce-Inv w k m (Producer.stored x c) e v h =
      let at = subst (ProducerKnows w k m) e v.producer in
      (w + 1, k, commit-Inv w k m x c at v h, omega arith)

  pub take_out-Inv :
      (w k : ℕ) (m : Machine T) (c : Consumer T)
      → m.consumer ≡ c
      → Inv w k m
      → w < u64_max
      → Next w (take_out blank c m)
  unfolding take_out
  take_out-Inv w k m Consumer.outside e v h = (w, k, v, omega arith)
  take_out-Inv w k m Consumer.locked e v h =
      let at = subst (ConsumerKnows w k m) e v.consumer in (w, k, ground (arith, at), omega arith)
  take_out-Inv w k m (Consumer.loaded_insert i) e v h =
      let at = subst (ConsumerKnows w k m) e v.consumer in (w, k, ground (arith, at), omega arith)
  take_out-Inv w k m (Consumer.loaded i c) e v h =
      let at = subst (ConsumerKnows w k m) e v.consumer in (w, k, ground (arith, at), omega arith)
  take_out-Inv w k m (Consumer.claimed c) e v h =
      let at = subst (ConsumerKnows w k m) e v.consumer in (w, k, ground (arith, at), omega arith)
  take_out-Inv w k m (Consumer.copied c x) e v h =
      let at = subst (ConsumerKnows w k m) e v.consumer in
      (w, k + 1, release-Inv w k m x c at v h, omega arith)
