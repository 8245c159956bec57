-- ===== src/Utils/DataVector/Sizes.antt =====
-- Changing the size of a vector, and copying it.
use native.Mathlib.Decide.{dec_lt}
use myblob.Base.{
  ℕ, zero, suc, ◌≤◌, ◌<◌, ◌≡◌, refl, sym, ap, ◌∙◌, ◌⊎◌, inl, inr, true, false, some, List, [], ◌∷◌,
  arith, take, take-all, ok, err, ltb, Option-cases,
}
use myblob.Utils.DataVector.{DataVector, not_owned, nothing, owned, resize, copy}
use myblob.Utils.DataVector.Laws.{
  elements, IsValid, copied-elements, length-elements, grown, grown-IsValid,
}

module _ {ℓ} {T : Type ℓ} where
  take-take : (k n : ℕ) (xs : List T) → k ≤ n → take k (take n xs) ≡ take k xs
  take-take zero n xs h = refl
  take-take (suc k) zero xs h = absurd (omega arith)
  take-take (suc k) (suc n) [] h = refl
  take-take (suc k) (suc n) (x ∷ xs) h = ap (λ t. x ∷ t) (take-take k n xs (omega arith))

  elements_of_zero : (v : DataVector T) → v.size ≡ 0 → elements v ≡ []
  elements_of_zero v e = elim (Option-cases v.memory) [ inl m ↦ rw m | inr (cells, m) ↦ rw (m, e) ]

module _ {ℓ} {T : Type ℓ} (blank : T) where
  -- With another size, as far as the memory goes, the common first elements stay.
  resized-IsValid :
      (v : DataVector T) (size k : ℕ)
      → IsValid v
      → size ≤ v.capacity
      → k ≤ v.size
      → k ≤ size
      → IsValid (record v { size = size })
        × (take k (elements (record v { size = size })) ≡ take k (elements v))
  resized-IsValid v size k h l a b = elim (Option-cases v.memory) [
    | inl e ↦ (record { fits = l; backed = h.backed }, rw e)
    | inr (cells, e) ↦ (
      record { fits = l; backed = h.backed },
      rw e (take-take k size cells b ∙ sym (take-take k v.size cells a)),
    )
  ]

  -- On a valid vector that owns its memory or holds `size` elements, `resize` to `size` returns a
  -- valid vector of that size, and the first `k` elements stay, where both sizes are at least `k`.
  pub resize_keeps :
      (v : DataVector T) (size k : ℕ)
      → IsValid v
      → (owned v ≡ true) ⊎ (size ≤ v.capacity)
      → k ≤ v.size
      → k ≤ size
      → (w : DataVector T) × (resize blank v size ≡ ok w)
        × (w.size ≡ size)
        × (take k (elements w) ≡ take k (elements v))
        × IsValid w
  unfolding resize grown owned
  resize_keeps v size k h room a b = elim (dec_lt v.capacity size) [
    | yes l ↦
        let own : owned v ≡ true = ground arith in
        let test : ltb v.capacity size ≡ true = ground arith in
        let (i, e) = grown-IsValid blank v size h (omega arith) in
        let (i', e') = resized-IsValid (grown blank v size) size k i (omega arith) a b in
        (
          record (grown blank v size) { size = size },
          ground (arith, own),
          refl,
          e' ∙ ap (take k) e,
          i',
        )
    | no l ↦
        let test : ltb v.capacity size ≡ false = ground arith in
        let (i, e) = resized-IsValid v size k h (omega arith) a b in
        (record v { size = size }, rw test, refl, e, i)
  ]

  pub resize_throws :
      (v : DataVector T) (size : ℕ)
      → owned v ≡ false
      → v.capacity < size
      → resize blank v size ≡ err not_owned
  unfolding resize owned
  resize_throws v size o l = ground arith

  -- A copy of a valid vector is made without an exception; it is valid, owns its memory and holds
  -- the same elements.
  pub copy_same :
      (v : DataVector T)
      → IsValid v
      → (w : DataVector T) × (copy blank v ≡ ok w)
        × (elements w ≡ elements v)
        × (owned w ≡ true)
        × IsValid w
  unfolding copy owned nothing
  copy_same v h = elim (dec_lt 0 v.size) [
    | yes l ↦
        let test : ltb 0 v.size ≡ true = ground arith in
        let used = length-elements v h in
        let same = copied-elements v in
        (
          record {
            capacity = v.size;
            size = v.size;
            data_owned = true;
            memory = some (elements v);
          },
          rw (test, same),
          take-all v.size (elements v) (omega arith),
          refl,
          record { fits = omega arith; backed = used },
        )
    | no l ↦
        let gone : v.size ≡ 0 = omega arith in
        (
          nothing,
          ground arith,
          sym (elements_of_zero v gone),
          refl,
          record { fits = omega arith; backed = refl },
        )
  ]
