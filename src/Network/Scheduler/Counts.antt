-- ===== src/Network/Scheduler/Counts.antt =====
-- How often a message is in a list, for the loop of src/network/tasked_send_receiver.cpp.
use myblob.Base.{
  ℕ, zero, suc, ◌+◌, ◌<◌, ◌≤◌, ◌≡◌, refl, inl, inr, some, List, [], ◌∷◌, ◌++◌, ◌==◌, if◌then◌else◌,
  Bool-cases, length, get_elem?, arith,
}
use myblob.Network.Scheduler.{erase, remove_at}

abbrev pub one : ℕ → ℕ → ℕ
one k m = if m == k then 1 else 0

unfoldable pub occurrences : ℕ → List ℕ → ℕ
occurrences k [] = 0
occurrences k (x ∷ xs) = one k x + occurrences k xs

pub occurrences-append :
    (k : ℕ) (xs ys : List ℕ) → occurrences k (xs ++ ys) ≡ occurrences k xs + occurrences k ys
unfolding occurrences
occurrences-append k [] ys = omega arith
occurrences-append k (x ∷ xs) ys = omega (arith, occurrences-append k xs ys)

pub occurrences-last :
    (k m : ℕ) (xs : List ℕ) → occurrences k (xs ++ m ∷ []) ≡ occurrences k xs + one k m
unfolding occurrences
occurrences-last k m xs = omega (arith, occurrences-append k xs (m ∷ []))

pub occurrences-erase :
    (k m : ℕ) (xs : List ℕ)
    → 0 < occurrences m xs
    → occurrences k (erase m xs) + one k m ≡ occurrences k xs
unfolding occurrences erase
occurrences-erase k m [] h = absurd (omega arith)
occurrences-erase k m (x ∷ xs) h = elim (Bool-cases (x == m)) [
  | inl e ↦ rw e (ground arith)
  | inr e ↦ rw e (ground (arith, occurrences-erase k m xs (ground arith)))
]

pub length-erase : (m : ℕ) (xs : List ℕ) → length (erase m xs) ≤ length xs
unfolding erase
length-erase m [] = omega arith
length-erase m (x ∷ xs) = ground (arith, length-erase m xs)

pub occurrences-remove_at :
    (k i m : ℕ) (xs : List ℕ)
    → get_elem? xs i ≡ some m
    → occurrences k xs ≡ occurrences k (remove_at i xs) + one k m
unfolding occurrences remove_at
occurrences-remove_at k i m [] h = absurd (grind arith)
occurrences-remove_at k zero m (x ∷ xs) h = ground arith
occurrences-remove_at k (suc i) m (x ∷ xs) h = omega (arith, occurrences-remove_at k i m xs h)

pub length-remove_at :
    (i m : ℕ) (xs : List ℕ) → get_elem? xs i ≡ some m → suc (length (remove_at i xs)) ≡ length xs
unfolding remove_at
length-remove_at i m [] h = absurd (grind arith)
length-remove_at zero m (x ∷ xs) h = refl
length-remove_at (suc i) m (x ∷ xs) h = omega (arith, length-remove_at i m xs h)

pub one_self : (m : ℕ) → one m m ≡ 1
one_self m = ground arith

pub occurrences-empty : (k : ℕ) (xs : List ℕ) → length xs ≡ 0 → occurrences k xs ≡ 0
unfolding occurrences
occurrences-empty k [] h = refl
occurrences-empty k (x ∷ xs) h = absurd (omega arith)
