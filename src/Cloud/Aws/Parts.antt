-- ===== src/Cloud/Aws/Parts.antt =====
-- The requests for parts, and what signing them again makes of them: `putRequestGeneric` and
-- `resignRequest` in src/cloud/aws.cpp.
use myblob.Base.{
  ℕ, zero, suc, ◌+◌, ◌/◌, ◌%◌, ◌<◌, ◌≡◌, refl, ap, ◌∙◌, true, false, some, [], ◌∷◌, ◌==◌, ltb,
  if◌then◌else◌, if_lem, ok, arith,
}
use myblob.Base.Text.{Bytes, codes}
use myblob.Base.Map.{Entries, emplace, IsMap, compare_bytes}
use myblob.Utils.Encoding.{encode_url_parameters, encode_byte}
use myblob.Utils.Encoding.RoundTrip.{AllBytes, AllBytes-append, encode_url_parameters-AllBytes}
use myblob.Network.ConnectionManager.{digits, to_string}
use myblob.Network.HttpRequest.{Method, RequestType, HttpRequest, deserialize}
use myblob.Cloud.Aws.{get_address}
use myblob.Cloud.Aws.Requests.{
  Setting, request_text, file_path, part_queries, may_sign, signed, length_header,
  put_request_generic, own_headers, resign_request,
}
use myblob.Cloud.Aws.Text.{target_of, signed-returns}
use myblob.Cloud.Aws.ReadBack.{encoded, AllEntryBytes, IsPlain, deserialize-request_text}

AllBytes-digits : (fuel n : ℕ) → AllBytes (digits fuel n)
AllBytes-digits zero n = tt
AllBytes-digits (suc fuel) n =
    AllBytes-append (if ltb n 10 then [] else digits fuel (n / 10)) ((48 + n % 10) ∷ [])
      (if_lem AllBytes (ltb n 10) tt (AllBytes-digits fuel (n / 10))) (omega arith, tt)

-- What a request says when it is read, apart from its headers.
pub record Reads (text : Bytes) (m : Method) (p : Bytes) (q : Entries) : Type 0 where
  pub method : (deserialize text).method ≡ m
  pub path : (deserialize text).path ≡ p
  pub queries : (deserialize text).queries ≡ q

same_request :
    (r : HttpRequest) (m : Method) (p : Bytes) (q : Entries)
    → r.method ≡ m
    → r.path ≡ p
    → r.queries ≡ q
    → r ≡ record { queries = q; headers = r.headers; method = m; type = r.type; path = p }
same_request r m p q e f g =
    λ i. record { queries = g i; headers = r.headers; method = e i; type = r.type; path = f i }

abbrev pub part_entries : Bytes → Bytes → Entries
part_entries number id = (codes "partNumber", number) ∷ (codes "uploadId", id) ∷ []

encoded-entries :
    (number id : Bytes)
    → encoded (part_entries number id)
      ≡ part_entries (encode_url_parameters number) (encode_url_parameters id)
unfolding encoded encode_url_parameters encode_byte
encoded-entries number id = refl

entries-IsMap : (number id : Bytes) → IsMap (part_entries number id)
unfolding compare_bytes
entries-IsMap number id = (tt, ((refl, tt), tt))

entries-bytes :
    (number id : Bytes) → AllBytes number → AllBytes id → AllEntryBytes (part_entries number id)
entries-bytes number id h k = (omega arith, h, (omega arith, k, tt))

module _ (e : Setting) (address : Bytes) where
  -- A request with queries is signed, and read with its queries encoded.
  signed-Reads :
      (method : Method) (type : RequestType) (headers : Entries) (k v : Bytes) (m : Entries) (c : ℕ)
      (path body : Bytes)
      → may_sign e ≡ true
      → get_address e.aws.settings ≡ some address
      → IsPlain (c ∷ path)
      → AllEntryBytes ((k, v) ∷ m)
      → IsMap (encoded ((k, v) ∷ m))
      → let r : HttpRequest = record {
        queries = (k, v) ∷ m;
        headers = headers;
        method = method;
        type = type;
        path = c ∷ path;
      } in
        (text : Bytes) × (signed e r body ≡ ok (some text))
        × Reads text method (c ∷ path) (encoded ((k, v) ∷ m))
  signed-Reads method type headers k v m c path body h a p b s =
      let r : HttpRequest = record {
        queries = (k, v) ∷ m;
        headers = headers;
        method = method;
        type = type;
        path = c ∷ path;
      } in
      let (sent, f) = signed-returns e r body address h a in
      let g = deserialize-request_text method type sent k v m c path p b s in
      (
        request_text (record r { headers = sent }) (target_of r),
        f,
        record {
          method = ap (λ (x : HttpRequest). x.method) g;
          path = ap (λ (x : HttpRequest). x.path) g;
          queries = ap (λ (x : HttpRequest). x.queries) g;
        },
      )

  part_queries-entries :
      (part : ℕ) (id : Bytes) → 0 < part → part_queries e part id ≡ part_entries (to_string part) id
  unfolding part_queries emplace compare_bytes
  part_queries-entries part id h = let b : (part == 0) ≡ false = ground arith in rw b refl

  signed-entries :
      (method : Method) (type : RequestType) (headers : Entries) (number id : Bytes) (c : ℕ)
      (path body : Bytes)
      → may_sign e ≡ true
      → get_address e.aws.settings ≡ some address
      → AllBytes number
      → AllBytes id
      → IsPlain (c ∷ path)
      → let r : HttpRequest = record {
        queries = part_entries number id;
        headers = headers;
        method = method;
        type = type;
        path = c ∷ path;
      } in
        (text : Bytes) × (signed e r body ≡ ok (some text))
        × Reads text method
            (c ∷ path)
            (part_entries (encode_url_parameters number) (encode_url_parameters id))
  signed-entries method type headers number id c path body h a n b p =
      let q = encoded-entries number id in
      let (text, f, g) =
        signed-Reads method type headers (codes "partNumber") number ((codes "uploadId", id) ∷ []) c
          path body h a p (entries-bytes number id n b)
          (rw q (entries-IsMap (encode_url_parameters number) (encode_url_parameters id))) in
      (text, f, record { method = g.method; path = g.path; queries = g.queries ∙ q })

  -- A request for a part is made, and a server that reads it finds the path of the object and,
  -- percent-encoded once, the number of the part and the upload's id. The secrets are valid, there is
  -- an address, and the path holds no question mark, blank or carriage return.
  pub put_request_generic-Reads :
      (name object : Bytes) (part : ℕ) (id : Bytes)
      → may_sign e ≡ true
      → get_address e.aws.settings ≡ some address
      → 0 < part
      → AllBytes id
      → IsPlain (file_path e.aws.settings name)
      → (text : Bytes) × (put_request_generic e name object part id ≡ ok (some text))
        × Reads text Method.put
            (file_path e.aws.settings name)
            (part_entries (encode_url_parameters (to_string part)) (encode_url_parameters id))
  unfolding put_request_generic file_path
  put_request_generic-Reads name object part id h a n b p = rw (part_queries-entries part id n) (
      signed-entries Method.put RequestType.http_1_1 (length_header e object) (to_string part) id 47
        _ object h a (AllBytes-digits (suc part) part) b p)

  -- That request signed again is read with the number and the id encoded twice.
  pub resign_request-Reads :
      (old body path number id : Bytes) (c : ℕ)
      → Reads old Method.put
          (c ∷ path)
          (part_entries (encode_url_parameters number) (encode_url_parameters id))
      → may_sign e ≡ true
      → get_address e.aws.settings ≡ some address
      → AllBytes number
      → AllBytes id
      → IsPlain (c ∷ path)
      → (text : Bytes) × (resign_request e old body ≡ ok (some text))
        × Reads text Method.put (c ∷ path) (
            part_entries
              (encode_url_parameters (encode_url_parameters number))
              (encode_url_parameters (encode_url_parameters id)))
  unfolding resign_request
  resign_request-Reads old body path number id c r h a n b p =
      let x = deserialize old in
      rw
        (same_request x Method.put (c ∷ path)
          (part_entries (encode_url_parameters number) (encode_url_parameters id)) r.method r.path
          r.queries)
        (signed-entries Method.put x.type (own_headers e x.headers) (encode_url_parameters number)
          (encode_url_parameters id) c path body h a (encode_url_parameters-AllBytes number n)
          (encode_url_parameters-AllBytes id b) p)
