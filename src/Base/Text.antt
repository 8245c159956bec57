-- ===== src/Base/Text.antt =====
-- `std::string` and `std::string_view` as lists of bytes, with the operations that the source calls.
-- A position is an offset from the start; `none` stands for `npos`.
use Prim.Native.Char.{code}
use Prim.Native.String.{String}
use Prim.Native.Nat.{ℕ, zero, suc, ◌+◌, ◌≤◌}
use mathlib.Core.Path.{◌≡◌, refl, ap, ◌∙◌}
use mathlib.Core.Logic.{◌≢◌, ◌↔◌, inl, inr}
use mathlib.Core.Bool.{Bool, true, false, ◌&&◌}
use mathlib.Core.Option.{Option, none, some}
use mathlib.Core.List.{List, [], ◌∷◌, ◌++◌}
use native.Mathlib.Omega.{arith}
use myblob.Base.Tests.{◌==◌, if◌then◌else◌, Bool-cases, Option-cases}
use myblob.Base.Lists.{length, take, drop}

abbrev pub Bytes : Type 0
Bytes = List ℕ

-- The bytes of an ASCII literal.
abbrev pub codes : String → Bytes
codes String.[] = []
codes (String.◌∷◌ c s) = code c ∷ codes s

abbrev pub is_empty : Bytes → Bool
is_empty [] = true
is_empty (c ∷ s) = false

unfoldable pub eq_bytes : Bytes → Bytes → Bool
eq_bytes [] [] = true
eq_bytes [] (d ∷ t) = false
eq_bytes (c ∷ s) [] = false
eq_bytes (c ∷ s) (d ∷ t) = (c == d) && eq_bytes s t

unfoldable pub starts_with : Bytes → Bytes → Bool
starts_with [] s = true
starts_with (c ∷ p) [] = false
starts_with (c ∷ p) (d ∷ s) = (c == d) && starts_with p s

abbrev pub shift : ℕ → Option ℕ → Option ℕ
shift k none = none
shift k (some i) = some (i + k)

-- `s.find(p)`.
unfoldable pub find : Bytes → Bytes → Option ℕ
unfolding starts_with
find p [] = if is_empty p then some 0 else none
find p (c ∷ s) = if starts_with p (c ∷ s) then some 0 else shift 1 (find p s)

-- `s.find(p, pos)`, for a pattern that is not empty.
abbrev pub find_from : Bytes → Bytes → ℕ → Option ℕ
find_from p s pos = shift pos (find p (drop pos s))

-- `s.find(c)` for one byte, and `s.rfind(c)`.
unfoldable pub find_byte : ℕ → Bytes → Option ℕ
find_byte c [] = none
find_byte c (d ∷ s) = if c == d then some 0 else shift 1 (find_byte c s)

unfoldable pub rfind_byte : ℕ → Bytes → Option ℕ
rfind_byte c [] = none
rfind_byte c (d ∷ s) = elim (rfind_byte c s) [
  | some i ↦ some (suc i)
  | none ↦ if c == d then some 0 else none
]

-- `s.substr(pos)` and `s.substr(pos, n)` for `pos` within the text.
abbrev pub substr_from : Bytes → ℕ → Bytes
substr_from s pos = drop pos s

abbrev pub substr : Bytes → ℕ → ℕ → Bytes
substr s pos n = take n (drop pos s)

pub eq_bytes_iff : (s t : Bytes) → (eq_bytes s t ≡ true) ↔ (s ≡ t)
unfolding eq_bytes
eq_bytes_iff [] [] = (λ _. refl, λ _. refl)
eq_bytes_iff [] (d ∷ t) = (λ h. cc, λ h. cc)
eq_bytes_iff (c ∷ s) [] = (λ h. cc, λ h. cc)
eq_bytes_iff (c ∷ s) (d ∷ t) =
    (λ h. ground (arith, eq_bytes_iff s t), λ h. ground (arith, eq_bytes_iff s t))

pub eq_bytes_refl : (s : Bytes) → eq_bytes s s ≡ true
eq_bytes_refl s = (eq_bytes_iff s s).1 refl

pub starts_with-append : (p s : Bytes) → starts_with p (p ++ s) ≡ true
unfolding starts_with
starts_with-append [] s = refl
starts_with-append (c ∷ p) s = ground (arith, starts_with-append p s)

-- What a prefix test that passes says: the rest follows the prefix.
pub starts_with-split : (p s : Bytes) → starts_with p s ≡ true → s ≡ p ++ drop (length p) s
unfolding starts_with
starts_with-split [] s h = refl
starts_with-split (c ∷ p) [] h = cc
starts_with-split (c ∷ p) (d ∷ s) h = ground (arith, starts_with-split p s)

pub starts_with-length : (p s : Bytes) → starts_with p s ≡ true → length p ≤ length s
unfolding starts_with
starts_with-length [] s h = omega arith
starts_with-length (c ∷ p) [] h = cc
starts_with-length (c ∷ p) (d ∷ s) h = ground (arith, starts_with-length p s)

pub find-length : (p s : Bytes) (i : ℕ) → find p s ≡ some i → i + length p ≤ length s
unfolding find
find-length [] [] i h = ground arith
find-length (c ∷ p) [] i h = cc
find-length [] (d ∷ s) i h = ground arith
find-length (c ∷ p) (d ∷ s) i h = elim (Bool-cases (starts_with (c ∷ p) (d ∷ s))) [
  | inl e ↦ ground (arith, starts_with-length (c ∷ p) (d ∷ s))
  | inr e ↦ elim (Option-cases (find (c ∷ p) s)) [
    | inl n ↦ ground arith
    | inr (j, f) ↦ ground (arith, find-length (c ∷ p) s j)
  ]
]

-- The position that `find` returns is an occurrence.
pub find-starts_with : (p s : Bytes) (i : ℕ) → find p s ≡ some i → starts_with p (drop i s) ≡ true
unfolding find
find-starts_with [] [] i h = refl
find-starts_with (c ∷ p) [] i h = cc
find-starts_with [] (d ∷ s) i h = refl
find-starts_with (c ∷ p) (d ∷ s) i h = elim (Bool-cases (starts_with (c ∷ p) (d ∷ s))) [
  | inl e ↦ let at : i ≡ 0 = ground arith in rw at e
  | inr e ↦ elim (Option-cases (find (c ∷ p) s)) [
    | inl n ↦ ground arith
    | inr (j, f) ↦ let at : i ≡ suc j = ground arith in rw at (find-starts_with (c ∷ p) s j f)
  ]
]

-- An occurrence is found, there or earlier.
pub find-le :
    (p s : Bytes) (k : ℕ)
    → starts_with p (drop k s) ≡ true
    → (i : ℕ) × (find p s ≡ some i) × (i ≤ k)
unfolding find
find-le [] [] k h = (0, refl, omega arith)
find-le [] (d ∷ s) k h = (0, refl, omega arith)
find-le (c ∷ p) [] zero h = cc
find-le (c ∷ p) [] (suc k) h = cc
find-le (c ∷ p) (d ∷ s) zero h = (0, rw h, omega arith)
find-le (c ∷ p) (d ∷ s) (suc k) h = elim (Bool-cases (starts_with (c ∷ p) (d ∷ s))) [
  | inl e ↦ (0, rw e, omega arith)
  | inr e ↦ let (i, f, b) = find-le (c ∷ p) s k h in (i + 1, rw (e, f), omega arith)
]

-- What stands behind the first two parts of a text, and its first part.
pub drop_past :
    (xs ys zs : Bytes) (n : ℕ) → n ≡ length xs + length ys → drop n (xs ++ (ys ++ zs)) ≡ zs
drop_past [] [] zs zero e = refl
drop_past [] [] zs (suc n) e = absurd (omega arith)
drop_past [] (y ∷ ys) zs zero e = absurd (omega arith)
drop_past [] (y ∷ ys) zs (suc n) e = drop_past [] ys zs n (omega arith)
drop_past (x ∷ xs) ys zs zero e = absurd (omega arith)
drop_past (x ∷ xs) ys zs (suc n) e = drop_past xs ys zs n (omega arith)

pub drop_next : (s : Bytes) (c : ℕ) (t : Bytes) → drop (suc (length s)) (s ++ c ∷ t) ≡ t
drop_next [] c t = refl
drop_next (d ∷ s) c t = drop_next s c t

pub drop_behind : (s : Bytes) (c : ℕ) (t : Bytes) → drop (length s + 1) (s ++ c ∷ t) ≡ t
drop_behind s c t =
    let next : length s + 1 ≡ suc (length s) = omega arith in
    ap (λ n. drop n (s ++ c ∷ t)) next ∙ drop_next s c t

-- No byte of the text is `c`.
abbrev pub Lacks : ℕ → Bytes → Type 0
Lacks c [] = Unit
Lacks c (d ∷ s) = (c ≢ d) × Lacks c s

pub Lacks-append : (c : ℕ) (s t : Bytes) → Lacks c s → Lacks c t → Lacks c (s ++ t)
Lacks-append c [] t h k = k
Lacks-append c (d ∷ s) t h k = (h.0, Lacks-append c s t h.1 k)

-- The first occurrence stands behind a text that lacks the pattern's first byte.
pub find-append :
    (c : ℕ) (p s t : Bytes) → Lacks c s → find (c ∷ p) (s ++ ((c ∷ p) ++ t)) ≡ some (length s)
unfolding find
find-append c p [] t h = rw (starts_with-append (c ∷ p) t)
find-append c p (d ∷ s) t h = ground (arith, find-append c p s t h.1)

pub find_byte-append :
    (c : ℕ) (s t : Bytes) → Lacks c s → find_byte c (s ++ c ∷ t) ≡ some (length s)
unfolding find_byte
find_byte-append c [] t h = ground arith
find_byte-append c (d ∷ s) t h = ground (arith, find_byte-append c s t h.1)

pub find_byte-Lacks : (c : ℕ) (s : Bytes) → Lacks c s → find_byte c s ≡ none
unfolding find_byte
find_byte-Lacks c [] h = refl
find_byte-Lacks c (d ∷ s) h = ground (arith, find_byte-Lacks c s h.1)

-- A pattern is searched for behind a text that lacks its first byte.
pub find_skip :
    (c : ℕ) (p s t : Bytes) → Lacks c s → find (c ∷ p) (s ++ t) ≡ shift (length s) (find (c ∷ p) t)
unfolding find starts_with
find_skip c p [] t h = elim (Option-cases (find (c ∷ p) t)) [
  | inl e ↦ rw e
  | inr (i, e) ↦ rw e (ap some (omega arith))
]
find_skip c p (d ∷ s) t h = elim (Option-cases (find (c ∷ p) t)) [
  | inl e ↦ ground (arith, find_skip c p s t h.1)
  | inr (i, e) ↦ ground (arith, find_skip c p s t h.1)
]

-- Where a text has no occurrence, its ends have none.
pub find-drop : (p s : Bytes) (n : ℕ) → find p s ≡ none → find p (drop n s) ≡ none
unfolding find
find-drop p s zero e = e
find-drop p [] (suc n) e = e
find-drop p (d ∷ s) (suc n) e = elim (Bool-cases (starts_with p (d ∷ s))) [
  | inl t ↦ cc (rw t at e)
  | inr t ↦ elim (Option-cases (find p s)) [
    | inl f ↦ find-drop p s n f
    | inr (i, f) ↦ ground (arith, f, t)
  ]
]
