-- ===== src/Utils/Encoding.antt =====
-- The encodings of src/utils/utils.cpp. The calls into OpenSSL are parameters: `encode_block` stands
-- for `EVP_EncodeBlock`, `decode_block` for `EVP_DecodeBlock`, where `none` is a negative result.
pub mod RoundTrip
pub mod Tests
use Prim.Native.Nat.{◌/◌, ◌%◌}
use myblob.Base.{
  ℕ, zero, suc, ◌+◌, ◌-◌, ◌*◌, ◌^◌, ◌≡◌, refl, Bool, true, false, ◌&&◌, ◌||◌, Option, none, some,
  List, [], ◌∷◌, ◌++◌, ltb, leb, ◌==◌, if◌then◌else◌, length, Result, ok, err,
}
use myblob.Base.Text.{Bytes, codes}
use myblob.Base.Words.{sub64}

-- `isalnum` in the C locale.
abbrev pub is_alnum : ℕ → Bool
is_alnum c = (leb 48 c && leb c 57) || (leb 65 c && leb c 90) || (leb 97 c && leb c 122)

abbrev pub is_unreserved : ℕ → Bool
is_unreserved c = is_alnum c || (c == 45) || (c == 95) || (c == 46) || (c == 126)

-- The tables of digits.
abbrev pub upper_digit : ℕ → ℕ
upper_digit n = if ltb n 10 then 48 + n else 55 + n

abbrev pub lower_digit : ℕ → ℕ
lower_digit n = if ltb n 10 then 48 + n else 87 + n

unfoldable pub encode_byte : ℕ → Bytes
encode_byte c =
    if is_unreserved c then c ∷ [] else 37 ∷ upper_digit (c / 16) ∷ upper_digit (c % 16) ∷ []

unfoldable pub encode_url_parameters : Bytes → Bytes
encode_url_parameters [] = []
encode_url_parameters (c ∷ s) = encode_byte c ++ encode_url_parameters s

-- `toupper` of a digit in lower case is the digit in upper case. The loop counts in 32 bits, so the
-- input is shorter than 2 ^ 32.
unfoldable pub hex_encode : Bytes → Bool → Bytes
hex_encode [] upper = []
hex_encode (c ∷ s) upper =
    let rest = hex_encode s upper in
    if upper
    then upper_digit (c / 16) ∷ upper_digit (c % 16) ∷ rest
    else lower_digit (c / 16) ∷ lower_digit (c % 16) ∷ rest

-- The exceptions of the file, by their messages.
pub data CodingError : Type 0 where
  input_too_long encode_error decode_error : CodingError

abbrev pub int_max : ℕ
int_max = 2 ^ 31 - 1

abbrev pub base_length : ℕ → ℕ
base_length n = 4 * ((n + 2) / 3)

abbrev pub checked_length : Bytes → ℕ → Result CodingError Bytes
checked_length out n = if length out == base_length n then ok out else err encode_error

unfoldable pub base64_encode : (Bytes → Option Bytes) → Bytes → Result CodingError Bytes
base64_encode encode_block input =
    if ltb int_max (length input) then err input_too_long else elim (encode_block input) [
      | none ↦ err encode_error
      | some out ↦ checked_length out (length input)
    ]

-- The equals signs at the end.
unfoldable pub padding : Bytes → ℕ
padding [] = 0
padding (c ∷ s) = let rest = padding s in if (c == 61) && (rest == length s) then suc rest else rest

-- The buffer, and how many of its bytes are the result.
unfoldable pub base64_decode : (Bytes → Option Bytes) → Bytes → Result CodingError (Bytes × ℕ)
base64_decode decode_block input =
    if ltb int_max (length input)
    then err input_too_long
    else if length input == 0
    then ok ([], 0)
    else elim (decode_block input) [
      | none ↦ err decode_error
      | some out ↦ ok (out, sub64 (length out) (padding input))
    ]
