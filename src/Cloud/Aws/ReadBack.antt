-- ===== src/Cloud/Aws/ReadBack.antt =====
-- What a server reads of the requests of src/cloud/aws.cpp.
use myblob.Base.{ℕ, ◌≡◌, ◌≢◌, refl, ap, false, [], ◌∷◌, ◌++◌, length, arith}
use myblob.Base.Text.{Bytes, Lacks}
use myblob.Base.Map.{Entries, IsMap}
use myblob.Utils.Encoding.{is_unreserved, encode_url_parameters}
use myblob.Utils.Encoding.RoundTrip.{AllBytes, encode_url_parameters-Lacks}
use myblob.Network.HttpRequest.{
  Method, RequestType, HttpRequest, write_headers, write_queries, read_headers, deserialize,
}
use myblob.Network.HttpRequest.Queries.{CleanQueries, AllLack}
use myblob.Network.HttpRequest.RoundTrip.{IsClean, deserialize-line}
use myblob.Cloud.Aws.Signer.{canonical_queries}
use myblob.Cloud.Aws.Requests.{request_text}
use myblob.Cloud.Aws.Text.{target_of}

unfoldable pub encoded : Entries → Entries
encoded [] = []
encoded ((k, v) ∷ m) = (encode_url_parameters k, encode_url_parameters v) ∷ encoded m

abbrev pub AllEntryBytes : Entries → Type 0
AllEntryBytes [] = Unit
AllEntryBytes ((k, v) ∷ m) = AllBytes k × AllBytes v × AllEntryBytes m

canonical_queries-encoded : (m : Entries) → canonical_queries m ≡ write_queries (encoded m)
unfolding canonical_queries write_queries encoded
canonical_queries-encoded [] = refl
canonical_queries-encoded ((k, v) ∷ []) = refl
canonical_queries-encoded ((k, v) ∷ q ∷ m) =
    ap (λ t. encode_url_parameters k ++ 61 ∷ (encode_url_parameters v ++ 38 ∷ t))
      (canonical_queries-encoded (q ∷ m))

abbrev Reserved : ℕ → Type 0
Reserved b = (is_unreserved b ≡ false) × (b ≢ 37)

both_lack :
    (a b : ℕ) (k v : Bytes)
    → AllBytes k
    → AllBytes v
    → Reserved a
    → Reserved b
    → Lacks a (encode_url_parameters k) × Lacks b (encode_url_parameters v)
both_lack a b k v h g x y =
    (encode_url_parameters-Lacks a k h x.0 x.1, encode_url_parameters-Lacks b v g y.0 y.1)

equals-Reserved : Reserved 61
equals-Reserved = (refl, omega arith)

ampersand-Reserved : Reserved 38
ampersand-Reserved = (refl, omega arith)

encoded-CleanQueries : (m : Entries) → AllEntryBytes m → CleanQueries (encoded m)
unfolding encoded
encoded-CleanQueries [] h = tt
encoded-CleanQueries ((k, v) ∷ m) h =
    let b = both_lack 61 38 k v h.0 h.1 equals-Reserved ampersand-Reserved in
    (b.0, b.1, encoded-CleanQueries m h.2)

encoded-AllLack :
    (b : ℕ) (m : Entries)
    → AllEntryBytes m
    → is_unreserved b ≡ false
    → b ≢ 37
    → AllLack b (encoded m)
unfolding encoded
encoded-AllLack b [] h u n = tt
encoded-AllLack b ((k, v) ∷ m) h u n = (
  encode_url_parameters-Lacks b k h.0 u n,
  encode_url_parameters-Lacks b v h.1 u n,
  encoded-AllLack b m h.2 u n,
)

-- A path that stands for itself in a request line.
abbrev pub IsPlain : Bytes → Type 0
IsPlain path = Lacks 63 path × Lacks 32 path × Lacks 13 path

-- The line of a request with its queries encoded.
abbrev encoded_request : Method → RequestType → Bytes → Entries → HttpRequest
encoded_request method type path queries = record {
  queries = encoded queries;
  headers = [];
  method = method;
  type = type;
  path = path;
}

encoded_request-IsClean :
    (method : Method) (type : RequestType) (path : Bytes) (queries : Entries)
    → IsPlain path
    → AllEntryBytes queries
    → IsMap (encoded queries)
    → IsClean (encoded_request method type path queries)
encoded_request-IsClean method type path queries p h s = record {
  path_no_query = p.0;
  path_no_blank = p.1;
  path_no_break = p.2;
  queries_sorted = s;
  queries_clean = encoded-CleanQueries queries h;
  queries_no_blank = encoded-AllLack 32 queries h refl (omega arith);
  queries_no_break = encoded-AllLack 13 queries h refl (omega arith);
  headers_sorted = tt;
  headers_clean = tt;
}

-- A request with queries is read back with its queries encoded, and with some headers.
pub deserialize-request_text :
    (method : Method) (type : RequestType) (headers : Entries) (k v : Bytes) (m : Entries) (c : ℕ)
    (path : Bytes)
    → IsPlain (c ∷ path)
    → AllEntryBytes ((k, v) ∷ m)
    → IsMap (encoded ((k, v) ∷ m))
    → let r : HttpRequest = record {
      queries = (k, v) ∷ m;
      headers = headers;
      method = method;
      type = type;
      path = c ∷ path;
    } in
      let rest = write_headers headers in
      deserialize (request_text r (target_of r))
      ≡ record r { queries = encoded r.queries; headers = read_headers (length rest) rest [] }
unfolding encoded
deserialize-request_text method type headers k v m c path plain h s =
    rw (canonical_queries-encoded ((k, v) ∷ m)) (
      deserialize-line (encoded_request method type (c ∷ path) ((k, v) ∷ m)) headers
        (encoded_request-IsClean method type (c ∷ path) ((k, v) ∷ m) plain h s))
