-- ===== src/Cloud/Aws/Signer.antt =====
-- The signature of a request: include/cloud/aws_signer.hpp and src/cloud/aws_signer.cpp. The hashes
-- of src/utils/utils.cpp, which are calls into OpenSSL, are the fields of `Hashes`. The request that
-- the structure `StringToSign` refers to is passed besides it.
use myblob.Base.{
  ℕ, ◌+◌, Bool, true, false, ◌&&◌, none, some, [], ◌∷◌, ◌++◌, leb, if◌then◌else◌, length, take,
  Result, ok, err,
}
use myblob.Base.Text.{Bytes, codes}
use myblob.Base.Map.{Entries, emplace, lookup}
use myblob.Network.HttpRequest.{Method, HttpRequest, get_request_method}
use myblob.Utils.Encoding.{encode_url_parameters, hex_encode}

-- `hmac key message`; `md5` is the digest in base64.
pub record Hashes : Type 0 where
  pub sha256 : Bytes → Bytes
  pub md5 : Bytes → Bytes
  pub hmac : Bytes → Bytes → Bytes

pub record StringToSign : Type 0 where
  pub region : Bytes
  pub service : Bytes
  pub request_sha : Bytes
  pub signed_headers : Bytes
  pub payload_hash : Bytes

pub data SignError : Type 0 where
  missing_date null_secret out_of_range : SignError

-- `tolower`.
abbrev pub lower_byte : ℕ → ℕ
lower_byte c = if leb 65 c && leb c 90 then c + 32 else c

unfoldable pub lower : Bytes → Bytes
lower [] = []
lower (c ∷ s) = lower_byte c ∷ lower s

abbrev pub path_or_root : Bytes → Bytes
path_or_root [] = 47 ∷ []
path_or_root (c ∷ path) = c ∷ path

abbrev pub path_of : HttpRequest → Bytes
path_of r = path_or_root r.path

unfoldable pub canonical_queries : Entries → Bytes
canonical_queries [] = []
canonical_queries ((k, v) ∷ []) = encode_url_parameters k ++ 61 ∷ encode_url_parameters v
canonical_queries ((k, v) ∷ q ∷ m) =
    encode_url_parameters k ++ 61 ∷ (encode_url_parameters v ++ 38 ∷ canonical_queries (q ∷ m))

-- Of keys that differ in case only, the first one's value is kept.
unfoldable pub sort_headers : Entries → Entries → Entries
sort_headers [] sorted = sorted
sort_headers ((k, v) ∷ m) sorted = sort_headers m (emplace (lower k) v sorted)

unfoldable pub write_lines : Entries → Bytes
write_lines [] = []
write_lines ((k, v) ∷ m) = k ++ 58 ∷ (v ++ 10 ∷ write_lines m)

unfoldable pub write_keys : Entries → Bytes
write_keys [] = []
write_keys ((k, v) ∷ []) = k
write_keys ((k, v) ∷ h ∷ m) = k ++ 59 ∷ write_keys (h ∷ m)

abbrev pub has_md5 : Method → Bool
has_md5 Method.put = true
has_md5 Method.post = true
has_md5 _ = false

module _ (hashes : Hashes) where
  -- The hash of the body, and the headers with what is said of the body.
  unfoldable pub add_payload : HttpRequest → Bytes → Bytes × HttpRequest
  add_payload r body =
      let hash = hashes.sha256 body in
      let hashed = emplace (codes "x-amz-content-sha256") hash r.headers in
      let unsigned = codes "UNSIGNED-PAYLOAD" in
      if leb (length body) 1024
      then (
        hash,
        record r {
          headers =
              if has_md5 r.method
              then emplace (codes "Content-MD5") (hashes.md5 body) hashed
              else hashed;
        },
      )
      else (
        unsigned,
        record r { headers = emplace (codes "x-amz-content-sha256") unsigned r.headers },
      )

  unfoldable pub canonical_text : HttpRequest → Bytes → Entries → Bytes
  canonical_text r payload_hash sorted =
      get_request_method r.method
      ++ 10
        ∷ (path_of r
            ++ 10
              ∷ (canonical_queries r.queries
                  ++ 10 ∷ (write_lines sorted ++ 10 ∷ (write_keys sorted ++ 10 ∷ payload_hash))))

  unfoldable pub encode_canonical_request :
      HttpRequest → StringToSign → Bytes → HttpRequest × StringToSign
  encode_canonical_request r s body =
      let (payload_hash, r') = add_payload r body in
      let sorted = sort_headers r'.headers [] in
      (
        r',
        record s {
          payload_hash = payload_hash;
          signed_headers = write_keys sorted;
          request_sha = hashes.sha256 (canonical_text r' payload_hash sorted);
        },
      )

  abbrev pub scope : Bytes → StringToSign → Bytes
  scope date s = take 8 date ++ 47 ∷ (s.region ++ 47 ∷ (s.service ++ codes "/aws4_request"))

  unfoldable pub string_text : Bytes → StringToSign → Bytes
  string_text date s =
      codes "AWS4-HMAC-SHA256" ++ 10 ∷ (date ++ 10 ∷ (scope date s ++ 10 ∷ s.request_sha))

  unfoldable pub create_string_to_sign : HttpRequest → StringToSign → Result SignError Bytes
  create_string_to_sign r s = elim (lookup (codes "x-amz-date") r.headers) [
    | none ↦ err missing_date
    | some date ↦ ok (string_text date s)
  ]

  -- The key that is derived from the secret, and the signature.
  unfoldable pub derive_key : Bytes → Bytes → StringToSign → Bytes
  derive_key secret date s =
      hashes.hmac
        (hashes.hmac (hashes.hmac (hashes.hmac (codes "AWS4" ++ secret) (take 8 date)) s.region)
          s.service)
        (codes "aws4_request")

  unfoldable pub authorization : Bytes → Bytes → StringToSign → Bytes → Bytes
  authorization key_id date s signature =
      codes "AWS4-HMAC-SHA256 Credential="
      ++ (key_id
          ++ 47
            ∷ (scope date s
                ++ (codes ", SignedHeaders="
                    ++ (s.signed_headers ++ (codes ", Signature=" ++ signature)))))

  -- The headers with `Authorization`, which signs `text`.
  unfoldable pub authorized : Bytes → Bytes → StringToSign → Bytes → Bytes → Entries → Entries
  authorized key_id secret s date text headers =
      let signature = hex_encode (hashes.hmac (derive_key secret date s) text) false in
      emplace (codes "Authorization") (authorization key_id date s signature) headers

  -- The path with the queries, and the request with its new header.
  unfoldable pub create_signed_request :
      Bytes → Bytes → HttpRequest → StringToSign → Result SignError (Bytes × HttpRequest)
  create_signed_request key_id secret r s = elim (lookup (codes "x-amz-date") r.headers) [
    | none ↦ err missing_date
    | some date ↦ elim (create_string_to_sign r s) [
      | err e ↦ err e
      | ok text ↦ ok (
        path_of r ++ 63 ∷ canonical_queries r.queries,
        record r { headers = authorized key_id secret s date text r.headers },
      )
    ]
  ]
