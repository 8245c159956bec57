-- ===== src/Network/HttpResponse.antt =====
-- include/network/http_response.hpp and src/network/http_response.cpp: status codes, and the
-- parser of a response's status line and headers.
pub mod Fuel
pub mod RoundTrip
pub mod Incomplete
use myblob.Base.{
  ℕ, zero, suc, ◌+◌, Bool, true, false, not, ◌||◌, Option, none, some, List, [], ◌∷◌, ◌++◌, ltb,
  if◌then◌else◌, length, take, drop, Result, ok, err, ◌>>=◌, ◌>>◌, throw_if,
}
use myblob.Base.Text.{Bytes, codes, is_empty, starts_with, find}
use myblob.Base.Map.{Entries, emplace}

pub data Code : Type 0 where
  ok_200 created_201 no_content_204 partial_content_206 bad_request_400 unauthorized_401 : Code
  forbidden_403 not_found_404 conflict_409 length_required_411 : Code
  range_not_satisfiable_416 too_many_requests_429 internal_server_error_500 : Code
  service_unavailable_503 slow_down_503 unknown : Code

pub data HttpType : Type 0 where
  http_1_0 http_1_1 : HttpType

pub record HttpResponse : Type 0 where
  pub headers : Entries
  pub code : Code
  pub type : HttpType

-- The exceptions of `deserialize`; `out_of_range` is thrown by `substr`.
pub data Error : Type 0 where
  incomplete_header missing_first_line needs_http headers_need_key_and_value out_of_range : Error

unfoldable pub check_success : Code → Bool
check_success Code.ok_200 = true
check_success Code.created_201 = true
check_success Code.no_content_204 = true
check_success Code.partial_content_206 = true
check_success _ = false

unfoldable pub get_response_code : Code → Bytes
get_response_code Code.ok_200 = codes "200 OK"
get_response_code Code.created_201 = codes "201 Created"
get_response_code Code.no_content_204 = codes "204 No Content"
get_response_code Code.partial_content_206 = codes "206 Partial Content"
get_response_code Code.bad_request_400 = codes "400 Bad Request"
get_response_code Code.unauthorized_401 = codes "401 Unauthorized"
get_response_code Code.forbidden_403 = codes "403 Forbidden"
get_response_code Code.not_found_404 = codes "404 Not Found"
get_response_code Code.conflict_409 = codes "409 Conflict"
get_response_code Code.length_required_411 = codes "411 Length Required"
get_response_code Code.range_not_satisfiable_416 = codes "416 Range Not Satisfiable"
get_response_code Code.too_many_requests_429 = codes "429 Too Many Requests"
get_response_code Code.internal_server_error_500 = codes "500 Internal Server Error"
get_response_code Code.service_unavailable_503 = codes "503 Service Unavailable"
get_response_code Code.slow_down_503 = codes "503 Slow Down"
get_response_code Code.unknown = codes "UNKNOWN"

unfoldable pub get_response_code_number : Code → ℕ
get_response_code_number Code.ok_200 = 200
get_response_code_number Code.created_201 = 201
get_response_code_number Code.no_content_204 = 204
get_response_code_number Code.partial_content_206 = 206
get_response_code_number Code.bad_request_400 = 400
get_response_code_number Code.unauthorized_401 = 401
get_response_code_number Code.forbidden_403 = 403
get_response_code_number Code.not_found_404 = 404
get_response_code_number Code.conflict_409 = 409
get_response_code_number Code.length_required_411 = 411
get_response_code_number Code.range_not_satisfiable_416 = 416
get_response_code_number Code.too_many_requests_429 = 429
get_response_code_number Code.internal_server_error_500 = 500
get_response_code_number Code.service_unavailable_503 = 503
get_response_code_number Code.slow_down_503 = 503
get_response_code_number Code.unknown = 0

unfoldable pub without_content : Code → Bool
without_content Code.no_content_204 = true
without_content _ = false

unfoldable pub get_response_type : HttpType → Bytes
get_response_type HttpType.http_1_0 = codes "HTTP/1.0"
get_response_type HttpType.http_1_1 = codes "HTTP/1.1"

abbrev pub newline : Bytes
newline = 13 ∷ 10 ∷ []

-- The codes from OK_200 to SLOW_DOWN_503, in the order of the enumeration.
abbrev pub known_codes : List Code
known_codes =
    Code.ok_200 ∷ Code.created_201 ∷ Code.no_content_204 ∷ Code.partial_content_206
    ∷ Code.bad_request_400 ∷ Code.unauthorized_401 ∷ Code.forbidden_403 ∷ Code.not_found_404
    ∷ Code.conflict_409 ∷ Code.length_required_411 ∷ Code.range_not_satisfiable_416
    ∷ Code.too_many_requests_429 ∷ Code.internal_server_error_500 ∷ Code.service_unavailable_503
    ∷ Code.slow_down_503 ∷ []

-- The loop over the codes: the last one whose text the line starts with.
unfoldable pub match_code : Bytes → List Code → Code → Code
match_code line [] found = found
match_code line (c ∷ cs) found =
    match_code line cs (if starts_with (get_response_code c) line then c else found)

unfoldable pub response_type : Bytes → Result Error HttpType
response_type line =
    if starts_with (codes "HTTP/1.0") line
    then ok HttpType.http_1_0
    else if starts_with (codes "HTTP/1.1") line
    then ok HttpType.http_1_1
    else err needs_http

unfoldable pub status_line : Bytes → HttpResponse → Result Error HttpResponse
status_line line response = do
  t ← response_type line
  let skipped = length (get_response_type t) + 1
  throw_if (ltb (length line) skipped) out_of_range
  ok (record response { type = t; code = match_code (drop skipped line) known_codes Code.unknown })

unfoldable pub header_line : Bytes → HttpResponse → Result Error HttpResponse
header_line line response = elim (find (codes ": ") line) [
  | none ↦ err headers_need_key_and_value
  | some key_pos ↦ ok (record response {
    headers = emplace (take key_pos line) (drop (key_pos + 2) line) response.headers;
  })
]

-- The loop over the lines. Each round takes a line break off `text`, so its length is fuel enough.
unfoldable pub read_lines : ℕ → Bytes → Bool → HttpResponse → Result Error HttpResponse
read_lines zero text first response = err incomplete_header
read_lines (suc fuel) text first response = elim (find newline text) [
  | none ↦ err incomplete_header
  | some pos ↦
      let line = take pos text in
      let rest = drop (pos + 2) text in
      elim (is_empty line) [
        | true ↦ if first then err missing_first_line else ok response
        | false ↦ (if first then status_line line response else header_line line response) >>= λ r.
            read_lines fuel rest false r
      ]
]

abbrev pub no_response : HttpResponse
no_response = record { headers = []; code = Code.unknown; type = HttpType.http_1_1 }

unfoldable pub deserialize : Bytes → Result Error HttpResponse
deserialize text = read_lines (suc (length text)) text true no_response
