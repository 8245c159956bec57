-- ===== src/Utils/DataVector/Laws.antt =====
-- What a caller of the vector may rely on.
use native.Mathlib.Decide.{dec_lt}
use myblob.Base.{
  ℕ, zero, suc, ◌+◌, ◌-◌, ◌≤◌, ◌<◌, ◌^◌, ◌≡◌, refl, ap, ◌∙◌, ◌⊎◌, inl, inr, true, false, Option,
  none, some, List, [], ◌∷◌, ◌++◌, arith, length, take, set, replicate, length-append, length-take,
  length-replicate, length-set, take-append, ok, err, ◌>>=◌, leb, if◌then◌else◌, ◌==◌, Option-cases,
}
use myblob.Base.Words.{mul64}
use myblob.Utils.DataVector.{DataVector, not_owned, owned, copied, reserve, store, push_back}

-- The elements in use.
abbrev pub elements {ℓ} : {T : Type ℓ} → DataVector T → List T
elements v = elim v.memory [ none ↦ [] | some cells ↦ take v.size cells ]

-- The memory holds `capacity` elements, and the elements in use lie in it.
abbrev pub HasRoom {ℓ} : {T : Type ℓ} → Option (List T) → ℕ → Type 0
HasRoom none cap = cap ≡ 0
HasRoom (some cells) cap = length cells ≡ cap

pub record IsValid {ℓ} {T : Type ℓ} (v : DataVector T) : Type 0 where
  pub fits : v.size ≤ v.capacity
  pub backed : HasRoom v.memory v.capacity

module _ {ℓ} {T : Type ℓ} where
  set_at_end :
      (cells : List T) (n : ℕ) (x : T)
      → n < length cells
      → take (suc n) (set cells n x) ≡ take n cells ++ x ∷ []
  set_at_end [] n x h = absurd (omega arith)
  set_at_end (c ∷ cells) zero x h = refl
  set_at_end (c ∷ cells) (suc n) x h = ap (λ t. c ∷ t) (set_at_end cells n x (omega arith))

  -- A write just behind the elements in use, with room for it, adds one element.
  pub store-elements :
      (v : DataVector T) (x : T)
      → IsValid v
      → v.size < v.capacity
      → (elements (store v x) ≡ elements v ++ x ∷ []) × IsValid (store v x)
  unfolding store
  store-elements v x h l = elim (Option-cases v.memory) [
    | inl e ↦ absurd (let room : v.capacity ≡ 0 = rw e at h.backed in omega arith)
    | inr (cells, e) ↦
        let room : length cells ≡ v.capacity = rw e at h.backed in
        let next : v.size + 1 ≡ suc v.size = omega arith in
        (
          rw (e, next) (set_at_end cells v.size x (omega arith)),
          record { fits = omega arith; backed = rw e (length-set cells v.size x ∙ room) },
        )
  ]

  -- What `memcpy` takes over is what is in use.
  pub copied-elements : (v : DataVector T) → copied v.memory v.size ≡ elements v
  unfolding copied
  copied-elements v = elim (Option-cases v.memory) [ inl e ↦ rw e | inr (cells, e) ↦ rw e ]

  pub length-elements : (v : DataVector T) → IsValid v → length (elements v) ≡ v.size
  length-elements v h = elim (Option-cases v.memory) [
    | inl e ↦ let room : v.capacity ≡ 0 = rw e at h.backed in rw e (omega arith)
    | inr (cells, e) ↦
        let room : length cells ≡ v.capacity = rw e at h.backed in
        rw e (omega (arith, length-take v.size cells))
  ]

module _ {ℓ} {T : Type ℓ} where
  take_at_end : (xs ys : List T) (n : ℕ) → length xs ≡ n → take n (xs ++ ys) ≡ xs
  take_at_end xs ys n e = rw (← e) (take-append xs ys)

module _ {ℓ} {T : Type ℓ} (blank : T) where
  -- The new memory of a vector that grows: the elements in use, then blanks.
  unfoldable pub grown : DataVector T → ℕ → DataVector T
  grown v limit = record {
    capacity = limit;
    size = v.size;
    data_owned = true;
    memory =
        let kept = copied v.memory v.size in some (kept ++ replicate (limit - length kept) blank);
  }

  pub grown-IsValid :
      (v : DataVector T) (limit : ℕ)
      → IsValid v
      → v.size ≤ limit
      → IsValid (grown v limit) × (elements (grown v limit) ≡ elements v)
  unfolding grown
  grown-IsValid v limit h l =
      let used = length-elements v h in
      let same = copied-elements v in
      (
        record {
          fits = l;
          backed = rw same (
              omega (
                arith,
                length-append (elements v) (replicate (limit - length (elements v)) blank),
                length-replicate (limit - length (elements v)) blank,
              ));
        },
        rw same (take_at_end (elements v) _ v.size used),
      )

  reserve_grows :
      (v : DataVector T) (limit : ℕ)
      → v.capacity < limit
      → (owned v ≡ true)
      → reserve blank v limit ≡ ok (grown v limit)
  unfolding reserve grown owned
  reserve_grows v limit l o = ground arith

  reserve_throws :
      (v : DataVector T) (limit : ℕ)
      → v.capacity < limit
      → owned v ≡ false
      → reserve blank v limit ≡ err not_owned
  unfolding reserve owned
  reserve_throws v limit l o = ground arith

  -- The capacity that `push_back` asks for.
  doubled : DataVector T → ℕ
  doubled v = if v.capacity == 0 then 1 else mul64 v.capacity 2

  doubled_grows : (v : DataVector T) → v.capacity < 2 ^ 63 → v.capacity < doubled v
  unfolding doubled
  doubled_grows v b = ground arith

  -- On a valid vector of capacity below 2^63 that owns its memory or has room left, `push_back`
  -- returns a valid vector, whose elements are the old ones followed by the new one.
  pub push_back_appends :
      (v : DataVector T) (x : T)
      → IsValid v
      → v.capacity < 2 ^ 63
      → (owned v ≡ true) ⊎ (v.size < v.capacity)
      → (w : DataVector T) × (push_back blank v x ≡ ok w)
        × (elements w ≡ elements v ++ x ∷ [])
        × IsValid w
  unfolding push_back grown doubled
  push_back_appends v x h b room = elim (dec_lt v.size v.capacity) [
    | yes l ↦
        let (e, i) = store-elements v x h l in
        let test : leb v.capacity v.size ≡ false = ground arith in (store v x, rw test, e, i)
    | no full ↦
        let grows = doubled_grows v b in
        let own : owned v ≡ true = ground arith in
        let (i, e) = grown-IsValid v (doubled v) h (omega arith) in
        let (e', i') = store-elements (grown v (doubled v)) x i (omega arith) in
        let test : leb v.capacity v.size ≡ true = ground arith in
        (
          store (grown v (doubled v)) x,
          rw test (ap (λ m. m >>= λ w. ok (store w x)) (reserve_grows v (doubled v) grows own)),
          e' ∙ ap (λ t. t ++ x ∷ []) e,
          i',
        )
  ]

  -- On borrowed memory that is full, of capacity below 2^63, `push_back` throws.
  pub push_back_throws :
      (v : DataVector T) (x : T)
      → v.capacity < 2 ^ 63
      → owned v ≡ false
      → v.capacity ≤ v.size
      → push_back blank v x ≡ err not_owned
  unfolding push_back doubled
  push_back_throws v x b o full =
      let test : leb v.capacity v.size ≡ true = ground arith in
      rw test
        (ap (λ m. m >>= λ w. ok (store w x)) (reserve_throws v (doubled v) (doubled_grows v b) o))
