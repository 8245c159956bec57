-- ===== src/Utils/Encoding/RoundTrip.antt =====
-- What is encoded can be decoded, and holds no byte that means something in a request.
use Prim.Native.Nat.{◌/◌, ◌%◌}
use mathlib.Core.Path.{ap₂}
use myblob.Base.{
  ℕ, ◌+◌, ◌-◌, ◌*◌, ◌<◌, ◌≡◌, ◌≢◌, refl, ap, ◌∙◌, Bool, true, false, [], ◌∷◌, ◌++◌, arith, ltb,
  ◌==◌, if◌then◌else◌, Bool-cases, inl, inr,
}
use myblob.Base.Text.{Bytes, Lacks, Lacks-append}
use myblob.Utils.Encoding.{
  is_unreserved, upper_digit, lower_digit, encode_byte, encode_url_parameters, hex_encode,
}

-- Every element is a byte.
abbrev pub AllBytes : Bytes → Type 0
AllBytes [] = Unit
AllBytes (c ∷ s) = (c < 256) × AllBytes s

-- The value of a digit, in upper or lower case.
abbrev digit_value : ℕ → ℕ
digit_value d = if ltb d 58 then d - 48 else if ltb d 71 then d - 55 else d - 87

-- Percent decoding, as RFC 3986 describes it.
unfoldable pub decode_url : Bytes → Bytes
decode_url [] = []
decode_url (c ∷ []) = c ∷ []
decode_url (c ∷ d ∷ []) = c ∷ d ∷ []
decode_url (c ∷ d ∷ e ∷ s) =
    let escaped = decode_url s in
    let plain = decode_url (d ∷ e ∷ s) in
    if c == 37 then (digit_value d * 16 + digit_value e) ∷ escaped else c ∷ plain

unfoldable pub decode_hex : Bytes → Bytes
decode_hex [] = []
decode_hex (d ∷ []) = []
decode_hex (d ∷ e ∷ s) = (digit_value d * 16 + digit_value e) ∷ decode_hex s

digit_value-upper_digit : (n : ℕ) → n < 16 → digit_value (upper_digit n) ≡ n
digit_value-upper_digit n h = ground arith

digit_value-lower_digit : (n : ℕ) → n < 16 → digit_value (lower_digit n) ≡ n
digit_value-lower_digit n h = ground arith

upper_digit-unreserved : (n : ℕ) → n < 16 → is_unreserved (upper_digit n) ≡ true
upper_digit-unreserved n h = ground arith

-- Two digits make the byte.
digits_value : (c a b : ℕ) → c < 256 → a ≡ c / 16 → b ≡ c % 16 → a * 16 + b ≡ c
digits_value c a b h e f = omega arith

decode_plain : (c : ℕ) (s : Bytes) → c ≢ 37 → decode_url (c ∷ s) ≡ c ∷ decode_url s
unfolding decode_url
decode_plain c [] h = refl
decode_plain c (d ∷ []) h = refl
decode_plain c (d ∷ e ∷ s) h = ground arith

-- Percent decoding gives back any bytes that were encoded.
pub decode_url-encode_url_parameters :
    (s : Bytes) → AllBytes s → decode_url (encode_url_parameters s) ≡ s
unfolding encode_url_parameters encode_byte decode_url
decode_url-encode_url_parameters [] h = refl
decode_url-encode_url_parameters (c ∷ s) h = elim (Bool-cases (is_unreserved c)) [
  | inl e ↦ rw e (
      decode_plain c (encode_url_parameters s) (ground arith)
      ∙ ap (λ t. c ∷ t) (decode_url-encode_url_parameters s h.1))
  | inr e ↦ rw e (
      ap₂ (λ a t. a ∷ t)
        (digits_value c _ _ h.0 (digit_value-upper_digit (c / 16) (omega arith))
          (digit_value-upper_digit (c % 16) (omega arith)))
        (decode_url-encode_url_parameters s h.1))
]

-- The digits of a byte, in either case, give it back.
pub decode_hex-hex_encode :
    (s : Bytes) (upper : Bool) → AllBytes s → decode_hex (hex_encode s upper) ≡ s
unfolding hex_encode decode_hex
decode_hex-hex_encode [] upper h = refl
decode_hex-hex_encode (c ∷ s) true h =
    ap₂ (λ a t. a ∷ t)
      (digits_value c _ _ h.0 (digit_value-upper_digit (c / 16) (omega arith))
        (digit_value-upper_digit (c % 16) (omega arith)))
      (decode_hex-hex_encode s true h.1)
decode_hex-hex_encode (c ∷ s) false h =
    ap₂ (λ a t. a ∷ t)
      (digits_value c _ _ h.0 (digit_value-lower_digit (c / 16) (omega arith))
        (digit_value-lower_digit (c % 16) (omega arith)))
      (decode_hex-hex_encode s false h.1)

not_this : (b c : ℕ) → is_unreserved b ≡ false → is_unreserved c ≡ true → b ≢ c
not_this b c u v e = let f = ap (λ x. is_unreserved x) e in cc

encode_byte-Lacks : (b c : ℕ) → c < 256 → is_unreserved b ≡ false → b ≢ 37 → Lacks b (encode_byte c)
unfolding encode_byte
encode_byte-Lacks b c h u n = elim (Bool-cases (is_unreserved c)) [
  | inl e ↦ rw e (not_this b c u e, tt)
  | inr e ↦ rw e (
    n,
    (
      not_this b _ u (upper_digit-unreserved (c / 16) (omega arith)),
      (not_this b _ u (upper_digit-unreserved (c % 16) (omega arith)), tt),
    ),
  )
]

-- A byte that is neither unreserved nor a percent sign is not in an encoded text.
pub encode_url_parameters-Lacks :
    (b : ℕ) (s : Bytes)
    → AllBytes s
    → is_unreserved b ≡ false
    → b ≢ 37
    → Lacks b (encode_url_parameters s)
unfolding encode_url_parameters encode_byte
encode_url_parameters-Lacks b [] h u n = tt
encode_url_parameters-Lacks b (c ∷ s) h u n =
    Lacks-append b (encode_byte c) (encode_url_parameters s) (encode_byte-Lacks b c h.0 u n)
      (encode_url_parameters-Lacks b s h.1 u n)

pub AllBytes-append : (s t : Bytes) → AllBytes s → AllBytes t → AllBytes (s ++ t)
AllBytes-append [] t h g = g
AllBytes-append (c ∷ s) t h g = (h.0, AllBytes-append s t h.1 g)

upper_digit-bound : (n : ℕ) → n < 16 → upper_digit n < 256
upper_digit-bound n h = ground arith

encode_byte-AllBytes : (c : ℕ) → c < 256 → AllBytes (encode_byte c)
unfolding encode_byte
encode_byte-AllBytes c h = elim (Bool-cases (is_unreserved c)) [
  | inl e ↦ rw e (h, tt)
  | inr e ↦ rw e (
    omega arith,
    (upper_digit-bound (c / 16) (omega arith), (upper_digit-bound (c % 16) (omega arith), tt)),
  )
]

-- What is encoded is made of bytes.
pub encode_url_parameters-AllBytes : (s : Bytes) → AllBytes s → AllBytes (encode_url_parameters s)
unfolding encode_url_parameters
encode_url_parameters-AllBytes [] h = tt
encode_url_parameters-AllBytes (c ∷ s) h =
    AllBytes-append (encode_byte c) (encode_url_parameters s) (encode_byte-AllBytes c h.0)
      (encode_url_parameters-AllBytes s h.1)
