-- ===== src/Network/HttpHelper/Tests.antt =====
-- Responses on the wire, and the theorems of the parser and of `HttpHelper` at them.
use myblob.Base.{
  ℕ, ◌≡◌, ◌≢◌, ◌+◌, ◌≤◌, ◌^◌, refl, [], ◌∷◌, ◌++◌, true, false, none, some, arith, ok,
}
use myblob.Base.Text.{codes, find, starts_with}
use myblob.Base.Map.{compare_bytes, IsMap}
use myblob.Network.HttpResponse.{
  Code, HttpType, HttpResponse, get_response_code, get_response_type, deserialize, without_content,
}
use myblob.Network.HttpResponse.RoundTrip.{render, IsClean, deserialize-render}
use myblob.Network.HttpResponse.Incomplete.{deserialize_incomplete}
use myblob.Network.HttpHelper.{Info, Encoding, finished, from_chars, read_digits}
use myblob.Network.HttpHelper.Finished.{
  Stated, content_length, sized_info, finished-content_length, finished_too_early,
}

abbrev five : HttpResponse
five = record {
  headers = (codes "Content-Length", codes "5") ∷ (codes "ETag", codes "x") ∷ [];
  code = Code.ok_200;
  type = HttpType.http_1_1;
}

five-IsMap : IsMap five.headers
unfolding compare_bytes
five-IsMap = (tt, ((refl, tt), tt))

five-IsClean : IsClean five.headers
five-IsClean = omega arith

deserialize-render_example : deserialize (render five ++ codes "hello") ≡ ok five
deserialize-render_example =
    deserialize-render five (codes "hello") (λ e. cc) five-IsMap five-IsClean

five-Stated : Stated five content_length (codes "5") [] ((codes "ETag", codes "x") ∷ [])
unfolding get_response_code get_response_type without_content
five-Stated = record {
  known = λ e. cc;
  has_content = refl;
  sorted = five-IsMap;
  clean = five-IsClean;
  short = omega arith;
  found = refl;
  before = tt;
  behind = ((λ e. cc), (λ e. cc), tt);
}

finished-content_length_example : finished (render five ++ codes "hel") none ≡ (
  ok false,
  some (sized_info five (codes "5") (codes "hel") [] ((codes "ETag", codes "x") ∷ [])),
)
unfolding get_response_code get_response_type from_chars read_digits
finished-content_length_example =
    finished-content_length five (codes "5") (codes "hel") [] ((codes "ETag", codes "x") ∷ [])
      five-Stated (omega arith)

deserialize_incomplete_example : deserialize (codes "HTTP/1.1 200 OK") ≢ ok five
unfolding find starts_with
deserialize_incomplete_example = deserialize_incomplete (codes "HTTP/1.1 200 OK") five refl

-- The last header's value ends in `0`; of the content nothing has come.
abbrev aged : HttpResponse
aged = record {
  headers = (codes "Transfer-Encoding", codes "chunked") ∷ (codes "X-Age", codes "0") ∷ [];
  code = Code.ok_200;
  type = HttpType.http_1_1;
}

abbrev aged_info : Info
aged_info = record {
  response = aged;
  length = 0;
  header_length = 57;
  encoding = Encoding.chunked_encoding;
}

finished_too_early_example :
    (n : ℕ) × (finished (render aged) (some aged_info)
      ≡ (ok true, some (record aged_info { length = n })))
    × (2 ^ 64 ≤ n + 57)
unfolding get_response_code get_response_type without_content starts_with
finished_too_early_example =
    finished_too_early (render aged) aged_info 52 refl refl refl (omega arith) (omega arith)
