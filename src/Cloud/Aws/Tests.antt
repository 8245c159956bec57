-- ===== src/Cloud/Aws/Tests.antt =====
-- Examples for S3: a small setting, a part, and a header that is signed.
use myblob.Base.{◌≡◌, refl, Bool, true, false, none, some, [], ◌∷◌, ok, arith}
use myblob.Base.Text.{Bytes, codes, find}
use myblob.Base.Map.{Entries}
use myblob.Utils.Encoding.{encode_url_parameters}
use myblob.Network.ConnectionManager.{to_string}
use myblob.Network.HttpRequest.{Method, RequestType, HttpRequest}
use myblob.Cloud.Aws.{
  Secret, Aws, ThreadLocals, get_address, zone, usable, valid_keys, valid_session, get_secret,
}
use myblob.Cloud.Aws.Signer.{Hashes, StringToSign, encode_canonical_request}
use myblob.Cloud.Aws.Requests.{Setting, file_path, may_sign, put_request_generic, resign_request}
use myblob.Cloud.Aws.Parts.{Reads, part_entries, put_request_generic-Reads, resign_request-Reads}
use myblob.Cloud.Aws.Sorted.{Signs, encode_canonical_request-Signs}
use myblob.Cloud.Aws.Stale.{get_secret-stale}

abbrev small_hashes : Hashes
small_hashes = record {
  sha256 = λ body. codes "h";
  md5 = λ body. codes "m";
  hmac = λ key text. codes "k";
}

abbrev key : Secret
key = record { key_id = codes "id"; secret = codes "s"; token = []; expiration = 0 }

abbrev shop : Bool → Aws
shop zonal = record {
  self = 1;
  settings = record {
    bucket = codes "b";
    region = codes "r";
    endpoint = [];
    port = 80;
    https = true;
    zonal = zonal;
  };
  global_secret = some key;
  global_session_secret = none;
}

abbrev here : Setting
here = record {
  hashes = small_hashes;
  date = codes "21000101T000000Z";
  now = 7;
  aws = shop false;
  locals = record { secret = some key; session_secret = none; valid_instance = some 1 };
}

zone_of : zone (codes "data--use1-az4--x-s3") ≡ some (codes "use1-az4")
unfolding zone find
zone_of = refl

here-may_sign : may_sign here ≡ true
unfolding may_sign valid_keys usable
here-may_sign = refl

here-get_address : get_address here.aws.settings ≡ some (codes "b.s3.r.amazonaws.com")
unfolding get_address
here-get_address = refl

put_request_generic-Reads_example :
    (text : Bytes) × (put_request_generic here (codes "o") (codes "abc") 2 (codes "x/y")
      ≡ ok (some text))
    × Reads text Method.put
        (file_path here.aws.settings (codes "o"))
        (part_entries (encode_url_parameters (to_string 2)) (encode_url_parameters (codes "x/y")))
unfolding file_path
put_request_generic-Reads_example =
    put_request_generic-Reads here (codes "b.s3.r.amazonaws.com") (codes "o") (codes "abc") 2
      (codes "x/y") here-may_sign here-get_address (omega arith) (omega arith) (omega arith)

-- A request for a part, to be signed again.
part_made :
    (text : Bytes) × (put_request_generic here (codes "o") (codes "abc") 2 (codes "x/y")
      ≡ ok (some text))
    × Reads text Method.put
        (file_path here.aws.settings (codes "o"))
        (part_entries (encode_url_parameters (to_string 2)) (encode_url_parameters (codes "x/y")))
unfolding file_path
part_made =
    put_request_generic-Reads here (codes "b.s3.r.amazonaws.com") (codes "o") (codes "abc") 2
      (codes "x/y") here-may_sign here-get_address (omega arith) (omega arith) (omega arith)

abbrev first_text : Bytes
first_text = part_made.0

resign_request-Reads_example :
    (text : Bytes) × (resign_request here first_text (codes "abc") ≡ ok (some text))
    × Reads text Method.put (codes "/o") (
        part_entries
          (encode_url_parameters (encode_url_parameters (to_string 2)))
          (encode_url_parameters (encode_url_parameters (codes "x/y"))))
unfolding file_path
resign_request-Reads_example =
    resign_request-Reads here (codes "b.s3.r.amazonaws.com") first_text (codes "abc") (codes "o")
      (to_string 2) (codes "x/y") 47 part_made.2 here-may_sign here-get_address (omega arith)
      (omega arith) (omega arith)

get_secret-stale_example :
    let t : ThreadLocals = record {
      secret = some key;
      session_secret = some key;
      valid_instance = some 2;
    } in
    ((get_secret (shop true) t).session_secret ≡ some key)
    × (valid_session 60 7 (shop true) (get_secret (shop true) t) ≡ true)
unfolding usable
get_secret-stale_example =
    get_secret-stale (shop true)
      (record { secret = some key; session_secret = some key; valid_instance = some 2 }) key 2 60 7
      refl refl (omega arith) refl refl

abbrev asked : HttpRequest
asked = record {
  queries = [];
  headers = (codes "Host", codes "b") ∷ (codes "x-amz-date", codes "d") ∷ [];
  method = Method.get;
  type = RequestType.http_1_1;
  path = codes "/o";
}

abbrev plain : StringToSign
plain = record {
  region = codes "r";
  service = codes "s3";
  request_sha = [];
  signed_headers = [];
  payload_hash = [];
}

encode_canonical_request-Signs_example :
    (sorted : Entries) × Signs small_hashes
      (encode_canonical_request small_hashes asked plain []).0
      (encode_canonical_request small_hashes asked plain []).1
      sorted
encode_canonical_request-Signs_example = encode_canonical_request-Signs small_hashes asked plain []
