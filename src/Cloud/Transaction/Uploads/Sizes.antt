-- ===== src/Cloud/Transaction/Uploads/Sizes.antt =====
-- The sizes of the parts of an upload: `uploadMessages` in
-- include/cloud/transaction.hpp.
use native.Mathlib.Omega.{div_any}
use native.Mathlib.Nat.{suc-mul, mul-le-mul_right}
use myblob.Base.{
  ℕ, suc, ◌+◌, ◌-◌, ◌*◌, ◌/◌, ◌%◌, ◌<◌, ◌≤◌, ◌≡◌, refl, inl, inr, ◌==◌, if◌then◌else◌, Bool-cases,
  length, drop, length-take, length-drop, arith,
}
use myblob.Base.Text.{Bytes}
use myblob.Cloud.Transaction.Requests.{part_count}
use myblob.Cloud.Transaction.Uploads.Parts.{slice}

-- The object behind `k` full parts.
behind : (q k split size : ℕ) → q ≡ size / split → suc k ≤ q → split ≤ size - k * split
behind q k split size e h =
    let d : q * split + size % split ≡ size = rw e (omega (arith, div_any size split)) in
    let m : suc k * split ≤ q * split = mul-le-mul_right split h in omega (arith, suc-mul k split)

last_part :
    (k split size : ℕ)
    → 0 < split
    → suc k ≡ size / split + (if size % split == 0 then 0 else 1)
    → (0 < size - k * split) × (size - k * split ≤ split)
last_part k split size pos e =
    let d : size / split * split + size % split ≡ size = omega (arith, div_any size split) in
    let m : size % split < split = omega arith in
    elim (Bool-cases (size % split == 0)) [
      | inl z ↦
          let q : size / split ≡ suc k = ground arith in
          let f : size / split * split ≡ suc k * split = rw q refl in
          (ground (arith, suc-mul k split), ground (arith, suc-mul k split))
      | inr n ↦
          let q : size / split ≡ k = ground arith in
          let f : size / split * split ≡ k * split = rw q refl in (ground arith, omega arith)
    ]

untruncated :
    (size split : ℕ)
    → size / split < 65535
    → part_count size split ≡ size / split + (if size % split == 0 then 0 else 1)
unfolding part_count
untruncated size split h = ground arith

slice-bounds :
    (split k parts : ℕ) (object : Bytes)
    → 0 < split
    → parts ≡ length object / split + (if length object % split == 0 then 0 else 1)
    → k < parts
    → (0 < length (slice split parts k object)) × (length (slice split parts k object) ≤ split)
unfolding slice
slice-bounds split k parts object pos e h = elim (Bool-cases (suc k == parts)) [
  | inl z ↦
      rw (z, length-drop (k * split) object) (last_part k split (length object) pos (ground arith))
  | inr n ↦
      let b = behind (length object / split) k split (length object) refl (ground arith) in
      rw (n, length-take split (drop (k * split) object), length-drop (k * split) object)
        (ground arith)
]

-- As long as the number of parts fits into 16 bits, each part has at least one byte and at most
-- `splitSize` bytes.
pub part_count-slice :
    (split k : ℕ) (object : Bytes)
    → 0 < split
    → length object / split < 65535
    → k < part_count (length object) split
    → (0 < length (slice split (part_count (length object) split) k object))
      × (length (slice split (part_count (length object) split) k object) ≤ split)
part_count-slice split k object pos small h =
    slice-bounds split k _ object pos (untruncated (length object) split small) h
