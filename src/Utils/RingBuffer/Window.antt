-- ===== src/Utils/RingBuffer/Window.antt =====
-- The elements that a circular buffer holds between two counters, and how writes change them.
use mathlib.Core.Path.{ap₂}
use native.Mathlib.Nat.{mod-add-mod, mod-eq_of_lt, mod-lt, mod-eq-sub-mod}
use native.Mathlib.Decide.{dec_lt}
use myblob.Base.{
  ℕ, zero, suc, ◌+◌, ◌≤◌, ◌<◌, ◌%◌, ◌≡◌, refl, sym, ap, ◌∙◌, List, [], ◌∷◌, ◌++◌, arith, length,
  length-set, set, get_or, get_or-set_self, get_or-set_ne, leb, if◌then◌else◌, append_assoc,
  append-nil,
}
use myblob.Base.Words.{mod_ne_of_close}
use myblob.Utils.RingBuffer.{write_all}

module _ {ℓ} {T : Type ℓ} (blank : T) where
  -- The `n` elements from counter `k` on, going round at `size`.
  abbrev pub window : List T → ℕ → ℕ → ℕ → List T
  window buffer size k zero = []
  window buffer size k (suc n) = get_or buffer (k % size) blank ∷ window buffer size (k + 1) n

  pub length-window : (b : List T) (size k n : ℕ) → length (window b size k n) ≡ n
  length-window b size k zero = refl
  length-window b size k (suc n) = ap suc (length-window b size (k + 1) n)

  -- A write outside the window leaves it alone.
  pub window-set :
      (b : List T) (size k n j : ℕ) (v : T)
      → k + n ≤ j
      → j < k + size
      → window (set b (j % size) v) size k n ≡ window b size k n
  window-set b size k zero j v h l = refl
  window-set b size k (suc n) j v h l = ground (
    arith,
    get_or-set_ne b v blank (λ e. mod_ne_of_close size k j (omega arith) l (sym e)),
    window-set b size (k + 1) n j v,
  )

  pub window-snoc :
      (b : List T) (size k n : ℕ)
      → window b size k (suc n) ≡ window b size k n ++ get_or b ((k + n) % size) blank ∷ []
  window-snoc b size k zero = let e : k ≡ k + 0 = omega arith in rw (← e) refl
  window-snoc b size k (suc n) =
      let e : k + 1 + n ≡ k + suc n = omega arith in
      rw (← e) (ap (λ t. get_or b (k % size) blank ∷ t) (window-snoc b size (k + 1) n))

  next_pos :
      (size j : ℕ)
      → 0 < size
      → (if leb size (j % size + 1) then 0 else j % size + 1) ≡ (j + 1) % size
  next_pos size j h = elim (dec_lt (j % size + 1) size) [
    | yes l ↦ ground (arith, mod-add-mod j size 1, mod-eq_of_lt {n = j % size + 1} {m = size} l)
    | no g ↦ ground (
      arith,
      mod-lt j {m = size} h,
      mod-add-mod j size 1,
      mod-eq-sub-mod {n = j % size + 1} {m = size} (omega (arith, mod-lt j {m = size} h)),
      mod-eq_of_lt {n = 0} {m = size} h,
    )
  ]

  -- A write at the end of a window extends it.
  pub window-extend :
      (b : List T) (size k n : ℕ) (x : T)
      → length b ≡ size
      → n < size
      → window (set b ((k + n) % size) x) size k (suc n) ≡ window b size k n ++ x ∷ []
  window-extend b size k n x e h =
      window-snoc (set b ((k + n) % size) x) size k n
      ∙ ap₂ (λ s t. s ++ t ∷ []) (window-set b size k n (k + n) x (omega arith) (omega arith))
          (get_or-set_self b ((k + n) % size) x blank
            (omega (arith, mod-lt (k + n) {m = size} (omega arith))))

  pub window-write_all :
      (b : List T) (size k n : ℕ) (xs : List T)
      → length b ≡ size
      → 0 < size
      → n + length xs ≤ size
      → window (write_all size b ((k + n) % size) xs) size k (n + length xs)
        ≡ window b size k n ++ xs
  unfolding write_all
  window-write_all b size k n [] e p h =
      let z : n + 0 ≡ n = omega arith in rw z (sym (append-nil _))
  window-write_all b size k n (x ∷ xs) e p h =
      let b' = set b ((k + n) % size) x in
      let place : k + n + 1 ≡ k + suc n = omega arith in
      let count : n + suc (length xs) ≡ suc n + length xs = omega arith in
      let ih : window (write_all size b' ((k + suc n) % size) xs) size k (suc n + length xs)
          ≡ window b' size k (suc n) ++ xs =
        window-write_all b' size k (suc n) xs (length-set b _ x ∙ e) p (omega arith) in
      rw (next_pos size (k + n) p, place, count)
        (ih
          ∙ ap (λ t. t ++ xs) (window-extend b size k n x e (omega arith))
          ∙ append_assoc (window b size k n) (x ∷ []) xs)

  pub window_of_pos :
      (b : List T) (size k n m : ℕ)
      → n ≡ suc m
      → window b size k n ≡ get_or b (k % size) blank ∷ window b size (k + 1) m
  window_of_pos b size k n m e = rw e
