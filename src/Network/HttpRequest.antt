-- ===== src/Network/HttpRequest.antt =====
-- Requests as texts: include/network/http_request.hpp and src/network/http_request.cpp. The vector
-- that `serialize` returns holds the text and nothing else, so it is modelled by the text.
pub mod Headers
pub mod Queries
pub mod RoundTrip
pub mod Tests
use myblob.Base.{
  ℕ, zero, suc, ◌+◌, ◌-◌, ◌≡◌, refl, Bool, true, false, Option, none, some, List, [], ◌∷◌, ◌++◌,
  ◌==◌, if◌then◌else◌, take, drop, length,
}
use myblob.Base.Text.{Bytes, codes, eq_bytes, find, find_byte}
use myblob.Base.Map.{Entries, assign}

pub data Method : Type 0 where
  get put post delete : Method

pub data RequestType : Type 0 where
  http_1_0 http_1_1 : RequestType

pub record HttpRequest : Type 0 where
  pub queries : Entries
  pub headers : Entries
  pub method : Method
  pub type : RequestType
  pub path : Bytes

unfoldable pub get_request_method : Method → Bytes
get_request_method Method.get = codes "GET"
get_request_method Method.put = codes "PUT"
get_request_method Method.post = codes "POST"
get_request_method Method.delete = codes "DELETE"

unfoldable pub get_request_type : RequestType → Bytes
get_request_type RequestType.http_1_0 = codes "HTTP/1.0"
get_request_type RequestType.http_1_1 = codes "HTTP/1.1"

abbrev pub newline : Bytes
newline = 13 ∷ 10 ∷ []

unfoldable pub write_queries : Entries → Bytes
write_queries [] = []
write_queries ((k, v) ∷ []) = k ++ 61 ∷ v
write_queries ((k, v) ∷ q ∷ m) = k ++ 61 ∷ (v ++ 38 ∷ write_queries (q ∷ m))

unfoldable pub write_headers : Entries → Bytes
write_headers [] = newline
write_headers ((k, v) ∷ m) = (k ++ 58 ∷ 32 ∷ v) ++ (newline ++ write_headers m)

abbrev pub write_target : Bytes → Entries → Bytes
write_target path [] = path
write_target path (q ∷ m) = path ++ 63 ∷ write_queries (q ∷ m)

unfoldable pub serialize : HttpRequest → Bytes
serialize r =
    (get_request_method r.method
      ++ 32 ∷ (write_target r.path r.queries ++ 32 ∷ get_request_type r.type))
    ++ (newline ++ write_headers r.headers)

unfoldable pub read_method : Bytes → Method → Method
read_method s old =
    if eq_bytes s (codes "GET")
    then Method.get
    else if eq_bytes s (codes "PUT")
    then Method.put
    else if eq_bytes s (codes "POST")
    then Method.post
    else if eq_bytes s (codes "DELETE")
    then Method.delete
    else old

unfoldable pub read_type : Bytes → RequestType → RequestType
read_type s old =
    if eq_bytes s (codes "HTTP/1.0")
    then RequestType.http_1_0
    else if eq_bytes s (codes "HTTP/1.1")
    then RequestType.http_1_1
    else old

-- The loop over the queries, on fuel: each round takes a byte off at least.
unfoldable pub read_queries : ℕ → Bytes → Entries → Entries
read_queries zero query m = m
read_queries (suc fuel) query m = elim (find_byte 61 query) [
  | none ↦ m
  | some eq ↦ elim (find_byte 38 (drop eq query)) [
    | none ↦ assign (take eq query) (drop (eq + 1) query) m
    | some amp ↦
        read_queries fuel (drop (eq + amp + 1) query)
          (assign (take eq query) (take (amp - 1) (drop (eq + 1) query)) m)
  ]
]

unfoldable pub read_target : Bytes → HttpRequest → HttpRequest
read_target target r = elim (find_byte 63 target) [
  | some query_pos ↦
      let query = drop (query_pos + 1) target in
      record r {
        path = take query_pos target;
        queries = read_queries (length query) query r.queries;
      }
  | none ↦ record r { path = target }
]

unfoldable pub read_rest : Bytes → HttpRequest → HttpRequest
read_rest rest r = elim (find_byte 32 rest) [
  | none ↦ r
  | some path_end ↦
      let t = read_target (take path_end rest) r in
      record t { type = read_type (drop (path_end + 1) rest) t.type }
]

unfoldable pub first_line : Bytes → HttpRequest → HttpRequest
first_line line r = elim (find_byte 32 line) [
  | none ↦ r
  | some method_end ↦
      read_rest (drop (method_end + 1) line)
        (record r { method = read_method (take method_end line) r.method })
]

unfoldable pub skip_blanks : Bytes → Bytes
skip_blanks [] = []
skip_blanks (c ∷ s) = let rest = skip_blanks s in if c == 32 then rest else c ∷ s

unfoldable pub read_header : Bytes → Entries → Entries
read_header line m = elim (find_byte 58 line) [
  | none ↦ m
  | some colon_pos ↦ assign (take colon_pos line) (skip_blanks (drop (colon_pos + 1) line)) m
]

-- The loop over the headers, on fuel: each round takes a line break off.
unfoldable pub read_headers : ℕ → Bytes → Entries → Entries
read_headers zero text m = m
read_headers (suc fuel) text m = elim (find newline text) [
  | none ↦ m
  | some end ↦
      let rest = read_headers fuel (drop (end + 2) text) (read_header (take end text) m) in
      if end == 0 then m else rest
]

abbrev pub no_request : HttpRequest
no_request = record {
  queries = [];
  headers = [];
  method = Method.get;
  type = RequestType.http_1_1;
  path = [];
}

unfoldable pub deserialize : Bytes → HttpRequest
deserialize text = elim (find newline text) [
  | none ↦ no_request
  | some end ↦
      let r = first_line (take end text) no_request in
      let rest = drop (end + 2) text in
      record r { headers = read_headers (length rest) rest r.headers }
]
