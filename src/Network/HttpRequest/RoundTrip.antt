-- ===== src/Network/HttpRequest/RoundTrip.antt =====
-- What is written of a request is read back.
use myblob.Base.{◌+◌, ◌≡◌, refl, ap, ◌∙◌, [], ◌∷◌, ◌++◌, arith, length, take-append}
use myblob.Base.Text.{
  Bytes, eq_bytes, Lacks, Lacks-append, find-append, find_byte-append, drop_behind, drop_past,
}
use myblob.Base.Map.{Entries, IsMap}
use myblob.Network.HttpRequest.{
  Method, RequestType, HttpRequest, get_request_method, get_request_type, newline, write_headers,
  write_target, serialize, read_method, read_type, read_target, read_rest, first_line, read_headers,
  no_request, deserialize,
}
use myblob.Network.HttpRequest.Headers.{
  CleanHeaders, read_headers-write_headers, length-write_headers,
}
use myblob.Network.HttpRequest.Queries.{
  CleanQueries, AllLack, write_target-Lacks, read_target-write_target,
}

read_method-get_request_method : (m old : Method) → read_method (get_request_method m) old ≡ m
unfolding read_method get_request_method eq_bytes
read_method-get_request_method Method.get old = refl
read_method-get_request_method _ old = refl

read_type-get_request_type : (t old : RequestType) → read_type (get_request_type t) old ≡ t
unfolding read_type get_request_type eq_bytes
read_type-get_request_type RequestType.http_1_0 old = refl
read_type-get_request_type _ old = refl

method-Lacks : (m : Method) → Lacks 32 (get_request_method m) × Lacks 13 (get_request_method m)
unfolding get_request_method
method-Lacks Method.get = ground arith
method-Lacks _ = ground arith

type-Lacks : (t : RequestType) → Lacks 13 (get_request_type t)
unfolding get_request_type
type-Lacks RequestType.http_1_0 = ground arith
type-Lacks _ = ground arith

-- What the text of a request needs to be read back.
pub record IsClean (r : HttpRequest) : Type 0 where
  pub path_no_query : Lacks 63 r.path
  pub path_no_blank : Lacks 32 r.path
  pub path_no_break : Lacks 13 r.path
  pub queries_sorted : IsMap r.queries
  pub queries_clean : CleanQueries r.queries
  pub queries_no_blank : AllLack 32 r.queries
  pub queries_no_break : AllLack 13 r.queries
  pub headers_sorted : IsMap r.headers
  pub headers_clean : CleanHeaders r.headers

read_rest_parts :
    (target version : Bytes) (r : HttpRequest)
    → Lacks 32 target
    → read_rest (target ++ 32 ∷ version) r
      ≡ record (read_target target r) { type = read_type version (read_target target r).type }
unfolding read_rest
read_rest_parts target version r h =
    rw (find_byte-append 32 target version h, read_rest)
      (simp (take-append target (32 ∷ version), drop_behind target 32 version))

first_line_parts :
    (method rest : Bytes) (r : HttpRequest)
    → Lacks 32 method
    → first_line (method ++ 32 ∷ rest) r
      ≡ read_rest rest (record r { method = read_method method r.method })
unfolding first_line
first_line_parts method rest r h =
    rw (find_byte-append 32 method rest h, first_line)
      (simp (take-append method (32 ∷ rest), drop_behind method 32 rest))

-- The first line of a request.
abbrev pub line : HttpRequest → Bytes
line r =
    get_request_method r.method
    ++ 32 ∷ (write_target r.path r.queries ++ 32 ∷ get_request_type r.type)

first_line-line :
    (r : HttpRequest) → IsClean r → first_line (line r) no_request ≡ record r { headers = [] }
first_line-line r c =
    let version = get_request_type r.type in
    let target = write_target r.path r.queries in
    let begun = record no_request { method = r.method } in
    let no_blank : Lacks 32 target =
      write_target-Lacks 32 r.path r.queries (λ q. cc) (λ q. cc) (λ q. cc) c.path_no_blank
        c.queries_no_blank in
    first_line_parts (get_request_method r.method) (target ++ 32 ∷ version) no_request
      (method-Lacks r.method).0
    ∙ ap (λ m. read_rest (target ++ 32 ∷ version) (record no_request { method = m }))
        (read_method-get_request_method r.method Method.get)
    ∙ read_rest_parts target version begun no_blank
    ∙ ap {A = HttpRequest} (λ t. record t { type = read_type version t.type })
        (read_target-write_target r.path r.queries begun refl c.path_no_query c.queries_sorted
          c.queries_clean)
    ∙ ap {B = HttpRequest} (λ t. record r { headers = []; type = t })
        (read_type-get_request_type r.type RequestType.http_1_1)

line-Lacks : (r : HttpRequest) → IsClean r → Lacks 13 (line r)
line-Lacks r c = Lacks-append 13 (get_request_method r.method) _ (method-Lacks r.method).1 (
  (λ q. cc),
  Lacks-append 13 (write_target r.path r.queries) _
      (write_target-Lacks 13 r.path r.queries (λ q. cc) (λ q. cc) (λ q. cc) c.path_no_break
        c.queries_no_break)
      ((λ q. cc), type-Lacks r.type),
)

deserialize_parts :
    (first rest : Bytes)
    → Lacks 13 first
    → deserialize (first ++ (newline ++ rest)) ≡ record (first_line first no_request) {
      headers = read_headers (length rest) rest (first_line first no_request).headers;
    }
unfolding deserialize
deserialize_parts first rest h =
    rw (find-append 13 (10 ∷ []) first rest h, deserialize)
      (simp
        (take-append first (newline ++ rest), drop_past first newline rest (length first + 2) refl))

-- The first line is read back, whatever headers follow.
pub deserialize-line :
    (r : HttpRequest) (headers : Entries)
    → IsClean r
    → let rest = write_headers headers in
      deserialize (line r ++ (newline ++ rest))
      ≡ record r { headers = read_headers (length rest) rest [] }
deserialize-line r headers c =
    let rest = write_headers headers in
    deserialize_parts (line r) rest (line-Lacks r c)
    ∙ ap {A = HttpRequest} (λ t. record t { headers = read_headers (length rest) rest t.headers })
        (first_line-line r c)

-- A request whose path holds no question mark, blank or carriage return, whose queries and headers
-- are maps, whose query keys hold no equals sign, query values no ampersand, neither a blank or a
-- carriage return, whose header keys hold no colon or carriage return and header values no carriage
-- return or blank in front, is read back from its text.
pub deserialize-serialize : (r : HttpRequest) → IsClean r → deserialize (serialize r) ≡ r
unfolding serialize
deserialize-serialize r c =
    let rest = write_headers r.headers in
    deserialize_parts (line r) rest (line-Lacks r c)
    ∙ ap {A = HttpRequest} (λ t. record t { headers = read_headers (length rest) rest t.headers })
        (first_line-line r c)
    ∙ ap {B = HttpRequest} (λ h. record r { headers = h })
        (read_headers-write_headers (length rest) r.headers [] (length-write_headers r.headers)
          c.headers_sorted c.headers_clean)
