-- ===== src/Network/HttpHelper.antt =====
-- include/network/http_helper.hpp and src/network/http_helper.cpp: has a response been received
-- whole, and what is its content. `info` is the parsed head that the caller keeps between calls.
pub mod Head
pub mod Finished
mod Tests
use myblob.Base.{
  ℕ, zero, suc, ◌+◌, ◌-◌, ◌*◌, ◌%◌, ◌^◌, Bool, true, false, not, ◌&&◌, Option, none, some, List, [],
  ◌∷◌, ◌++◌, ltb, leb, if◌then◌else◌, length, take, drop, Result, ok, err, ◌>>=◌, ◌>>◌, throw_if,
  ◌==◌,
}
use myblob.Base.Words.{add64, sub64, u64_max, u64_mod}
use myblob.Base.Text.{Bytes, codes, eq_bytes, find}
use myblob.Base.Map.{Entries}
use myblob.Network.HttpResponse
use myblob.Network.HttpResponse.{HttpResponse, deserialize, without_content}

pub data Encoding : Type 0 where
  unknown content_length chunked_encoding : Encoding

pub record Info : Type 0 where
  pub response : HttpResponse
  pub length : ℕ
  pub header_length : ℕ
  pub encoding : Encoding

-- `out_of_bounds` stands for a read behind the received bytes, which C++ leaves undefined.
pub data Error : Type 0 where
  parse : HttpResponse.Error → Error
  unsupported_encoding unsupported_transfer out_of_bounds : Error

-- `std::from_chars` into a `uint64_t`: the leading digits. Without a digit, or out of range, the
-- target stays as it is.
abbrev pub is_digit : ℕ → Bool
is_digit c = leb 48 c && leb c 57

unfoldable pub read_digits : ℕ → Bytes → ℕ
read_digits acc [] = acc
read_digits acc (c ∷ s) =
    let rest = read_digits (acc * 10 + (c - 48)) s in if is_digit c then rest else acc

abbrev pub has_digit : Bytes → Bool
has_digit [] = false
has_digit (c ∷ s) = is_digit c

unfoldable pub from_chars : Bytes → ℕ → ℕ
from_chars s old = if has_digit s && ltb (read_digits 0 s) u64_mod then read_digits 0 s else old

abbrev pub header_end : Bytes
header_end = 13 ∷ 10 ∷ 13 ∷ 10 ∷ []

-- `static_cast<uint32_t>(header.find(headerEnd) + headerEnd.length())`.
unfoldable pub head_length : Bytes → ℕ
head_length header = elim (find header_end header) [
  | none ↦ add64 u64_max 4 % 2 ^ 32
  | some end ↦ add64 end 4 % 2 ^ 32
]

-- One round of the loop over the headers.
unfoldable pub detect_header : Bytes → Bytes → Bytes → Info → Info
detect_header header key value info =
    if eq_bytes (codes "Transfer-Encoding") key && eq_bytes (codes "chunked") value
    then record info { header_length = head_length header; encoding = Encoding.chunked_encoding }
    else if eq_bytes (codes "Content-Length") key
    then record info {
      length = from_chars value info.length;
      header_length = head_length header;
      encoding = Encoding.content_length;
    }
    else info

unfoldable pub detect_headers : Bytes → Entries → Info → Info
detect_headers header [] info = info
detect_headers header ((key, value) ∷ m) info =
    detect_headers header m (detect_header header key value info)

abbrev pub is_unknown : Encoding → Bool
is_unknown Encoding.unknown = true
is_unknown _ = false

abbrev pub lift_parse {ℓ} : {A : Type ℓ} → Result HttpResponse.Error A → Result Error A
lift_parse (ok a) = ok a
lift_parse (err e) = err (parse e)

unfoldable pub detect : Bytes → Result Error Info
detect header = do
  response ← lift_parse (deserialize header)
  let start : Info = record {
    response = response;
    length = 0;
    header_length = 0;
    encoding = Encoding.unknown;
  }
  let info = detect_headers header response.headers start
  throw_if (is_unknown info.encoding && not (without_content response.code)) unsupported_encoding
  ok (
      if without_content response.code
      then record info { header_length = length header % 2 ^ 32 }
      else info)

-- `if (!info) info = make_unique<Info>(detect(sv));`
unfoldable pub known_info : Bytes → Option Info → Result Error Info
known_info text (some info) = ok info
known_info text none = detect text

abbrev pub chunked_end : Bytes
chunked_end = 48 ∷ 13 ∷ 10 ∷ 13 ∷ 10 ∷ []

-- Once the head is known. The answer comes with what `info` is afterwards.
unfoldable pub finished_info : Bytes → Info → Result Error Bool × Option Info
finished_info text info =
    if without_content info.response.code then (ok true, some info) else elim info.encoding [
      | Encoding.content_length ↦
          (ok (leb (add64 info.header_length info.length) (length text)), some info)
      | Encoding.chunked_encoding ↦ elim (find chunked_end text) [
        | none ↦ (ok false, some info)
        | some pos ↦ (ok true, some (record info { length = sub64 pos info.header_length }))
      ]
      | Encoding.unknown ↦ (err unsupported_transfer, none)
    ]

unfoldable pub finished : Bytes → Option Info → Result Error Bool × Option Info
finished text info = elim (known_info text info) [
  | ok known ↦ finished_info text known
  | err e ↦ (err e, info)
]

-- Only content of a stated length is extracted; for any other encoding the text is empty.
unfoldable pub content : Bytes → Info → Result Error Bytes
content text info = elim info.encoding [
  | Encoding.content_length ↦
      if leb (info.header_length + info.length) (length text)
      then ok (take info.length (drop info.header_length text))
      else err out_of_bounds
  | _ ↦ ok []
]

unfoldable pub retrieve_content : Bytes → Option Info → Result Error Bytes × Option Info
retrieve_content text info = elim (known_info text info) [
  | ok known ↦ (content text known, some known)
  | err e ↦ (err e, info)
]
