-- ===== src/Network/MessageResult.antt =====
-- What a caller reads off a result: src/network/message_result.cpp.
pub mod Offset
pub mod Tests
use myblob.Base.{
  ℕ, zero, suc, ◌+◌, ◌≡◌, refl, Bool, true, false, ◌&&◌, Option, none, some, List, [], ◌∷◌, ltb,
  ◌==◌, if◌then◌else◌, take,
}
use myblob.Base.Text.{Bytes, find}
use myblob.Utils.DataVector.{DataVector, owned, transfer_buffer}
use myblob.Network.HttpResponse.{get_response_code, get_response_code_number}
use myblob.Network.HttpHelper.{Info, header_end}

-- The fields that hold the received data; state and failures stand in `HttpMessage.Task`.
pub record MessageResult : Type 0 where
  pub data_vector : Option (DataVector ℕ)
  pub response : Option Info

-- The elements of a vector as a text.
abbrev pub text_of : DataVector ℕ → Bytes
text_of v = elim v.memory [ none ↦ [] | some cells ↦ take v.size cells ]

abbrev pub text_or_empty : Option (DataVector ℕ) → Bytes
text_or_empty none = []
text_or_empty (some v) = if v.size == 0 then [] else text_of v

unfoldable pub get_result : MessageResult → Bytes
get_result r = text_or_empty r.data_vector

abbrev pub response_length : Option Info → ℕ
response_length none = 0
response_length (some i) = i.length

unfoldable pub get_size : MessageResult → ℕ
get_size r = elim r.data_vector [ some v ↦ v.size | none ↦ response_length r.response ]

abbrev pub response_offset : Option Info → ℕ
response_offset none = 0
response_offset (some i) = i.header_length

abbrev pub offset_at : Option ℕ → Option Info → ℕ
offset_at none i = response_offset i
offset_at (some pos) i = pos + 4

-- Where the content begins.
unfoldable pub get_offset : MessageResult → ℕ
get_offset r = elim r.data_vector [
  | none ↦ response_offset r.response
  | some v ↦
      if ltb 4 v.size
      then offset_at (find header_end (text_of v)) r.response
      else response_offset r.response
]

unfoldable pub get_error_response : MessageResult → Bytes
get_error_response r = elim r.response [
  | none ↦ []
  | some i ↦ elim r.data_vector [ none ↦ [] | some v ↦ text_of v ]
]

abbrev pub code_text : Option Info → Bytes
code_text none = []
code_text (some i) = get_response_code i.response.code

abbrev pub code_number : Option Info → ℕ
code_number none = 0
code_number (some i) = get_response_code_number i.response.code

unfoldable pub response_code : MessageResult → Bytes
response_code r = code_text r.response

unfoldable pub response_code_number : MessageResult → ℕ
response_code_number r = code_number r.response

unfoldable pub move_data : MessageResult → Option Bytes
move_data r = elim r.data_vector [ none ↦ none | some v ↦ (transfer_buffer v).0 ]

unfoldable pub result_owned : MessageResult → Bool
result_owned r = elim r.data_vector [ none ↦ false | some v ↦ owned v ]
