-- ===== src/Cloud/Aws/Requests.antt =====
-- The requests to S3: src/cloud/aws.cpp. `date` is the time as the header states it, `now` the time
-- in seconds; `none` is a null pointer.
use myblob.Base.{
  ℕ, suc, Bool, not, ◌&&◌, ◌||◌, Option, none, some, List, [], ◌∷◌, ◌++◌, ◌==◌, if◌then◌else◌,
  length, Result, ok, err, ◌>>=◌,
}
use myblob.Base.Text.{Bytes, codes, eq_bytes}
use myblob.Base.Map.{Entries, emplace}
use myblob.Network.ConnectionManager.{to_string}
use myblob.Network.HttpRequest.{
  Method, RequestType, HttpRequest, get_request_method, get_request_type, newline, write_headers,
  deserialize,
}
use myblob.Cloud.Aws.{
  Settings, Secret, Aws, ThreadLocals, is_empty, get_address, valid_keys, valid_session,
}
use myblob.Cloud.Aws.Signer.{
  Hashes, SignError, null_secret, out_of_range, encode_canonical_request, create_signed_request,
}

-- The surroundings of a call: the hashes, the time, the object and the thread.
pub record Setting : Type 0 where
  pub hashes : Hashes
  pub date : Bytes
  pub now : ℕ
  pub aws : Aws
  pub locals : ThreadLocals

abbrev pub request_with : Method → Bytes → Entries → Entries → HttpRequest
request_with method path queries headers = record {
  queries = queries;
  headers = headers;
  method = method;
  type = RequestType.http_1_1;
  path = path;
}

unfoldable pub file_path : Settings → Bytes → Bytes
file_path s name = 47 ∷ (if is_empty s.endpoint then name else s.bucket ++ 47 ∷ name)

-- The request line and the headers.
abbrev pub request_text : HttpRequest → Bytes → Bytes
request_text r target =
    (get_request_method r.method ++ 32 ∷ (target ++ 32 ∷ get_request_type r.type))
    ++ (newline ++ write_headers r.headers)

module _ (e : Setting) where
  -- The secret that signs.
  unfoldable pub signing_secret : Option Secret
  signing_secret = if e.aws.settings.zonal then e.locals.session_secret else e.locals.secret

  unfoldable pub init_headers : Bytes → Secret → Entries → Entries
  init_headers address s headers =
      let dated = emplace (codes "x-amz-date") e.date (emplace (codes "Host") address headers) in
      let payer = emplace (codes "x-amz-request-payer") (codes "requester") dated in
      if e.aws.settings.zonal
      then emplace (codes "x-amz-s3session-token") s.token dated
      else if is_empty s.token
      then payer
      else emplace (codes "x-amz-security-token") s.token payer

  unfoldable pub sign : Secret → HttpRequest → Bytes → Result SignError Bytes
  sign s r body =
      let (r', to_sign) =
        encode_canonical_request e.hashes r
          (record {
            region = e.aws.settings.region;
            service = codes "s3";
            request_sha = [];
            signed_headers = [];
            payload_hash = [];
          })
          body in
      create_signed_request e.hashes s.key_id s.secret r' to_sign >>= λ (x : Bytes × HttpRequest).
      ok (request_text x.1 x.0)

  -- `buildRequest` with its headers, as all callers want them.
  unfoldable pub build_request : HttpRequest → Bytes → Result SignError Bytes
  build_request r body = elim (get_address e.aws.settings) [
    | none ↦ err out_of_range
    | some address ↦ elim signing_secret [
      | none ↦ err null_secret
      | some s ↦ sign s (record r { headers = init_headers address s r.headers }) body
    ]
  ]

  unfoldable pub may_sign : Bool
  may_sign =
      valid_keys 60 e.now e.aws e.locals
      && (not e.aws.settings.zonal || valid_session 60 e.now e.aws e.locals)

  -- A request that is made only with valid secrets.
  unfoldable pub signed : HttpRequest → Bytes → Result SignError (Option Bytes)
  signed r body =
      if may_sign then build_request r body >>= (λ (text : Bytes). ok (some text)) else ok none

  unfoldable pub get_request : Bytes → ℕ × ℕ → Result SignError (Option Bytes)
  get_request name (first, last) =
      let range = codes "bytes=" ++ (to_string first ++ 45 ∷ to_string last) in
      signed
        (request_with Method.get (file_path e.aws.settings name) []
          (if first == last then [] else emplace (codes "Range") range []))
        []

  abbrev pub length_header : Bytes → Entries
  length_header body = emplace (codes "Content-Length") (to_string (length body)) []

  unfoldable pub part_queries : ℕ → Bytes → Entries
  part_queries part upload_id =
      if part == 0
      then []
      else emplace (codes "uploadId") upload_id (emplace (codes "partNumber") (to_string part) [])

  unfoldable pub put_request_generic : Bytes → Bytes → ℕ → Bytes → Result SignError (Option Bytes)
  put_request_generic name object part upload_id =
      signed
        (request_with Method.put (file_path e.aws.settings name) (part_queries part upload_id)
          (length_header object))
        object

  unfoldable pub delete_request_generic : Bytes → Bytes → Result SignError (Option Bytes)
  delete_request_generic name upload_id =
      signed
        (request_with Method.delete (file_path e.aws.settings name)
          (if is_empty upload_id then [] else emplace (codes "uploadId") upload_id []) [])
        []

  unfoldable pub create_multi_part_request : Bytes → Result SignError (Option Bytes)
  create_multi_part_request name =
      signed
        (request_with Method.post (file_path e.aws.settings name) (emplace (codes "uploads") [] [])
          [])
        []

  -- The list of the parts from number `i` on.
  unfoldable pub part_list : ℕ → List Bytes → Bytes
  part_list i [] = codes "</CompleteMultipartUpload>\n"
  part_list i (tag ∷ tags) =
      codes "<Part>\n<PartNumber>"
      ++ (to_string i
          ++ (codes "</PartNumber>\n<ETag>\""
              ++ (tag ++ (codes "\"</ETag>\n</Part>\n" ++ part_list (suc i) tags))))

  -- The request, and what is left in `content`.
  unfoldable pub complete_multi_part_request :
      Bytes → Bytes → List Bytes → Result SignError (Option Bytes) × Bytes
  complete_multi_part_request name upload_id tags =
      let content = codes "<CompleteMultipartUpload>\n" ++ part_list 1 tags in
      if may_sign
      then (
        signed
            (request_with Method.post (file_path e.aws.settings name)
              (emplace (codes "uploadId") upload_id []) (length_header content))
            content,
        content,
      )
      else (ok none, [])

  -- Only the headers of the object itself are kept.
  unfoldable pub own_headers : Entries → Entries
  own_headers [] = []
  own_headers ((k, v) ∷ m) =
      let rest = own_headers m in
      if eq_bytes k (codes "Range") || eq_bytes k (codes "Content-Length")
      then (k, v) ∷ rest
      else rest

  unfoldable pub resign_request : Bytes → Bytes → Result SignError (Option Bytes)
  resign_request old body =
      let r = deserialize old in signed (record r { headers = own_headers r.headers }) body
