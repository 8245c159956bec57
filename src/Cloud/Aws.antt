-- ===== src/Cloud/Aws.antt =====
-- Amazon S3: what an `AWS` object and a thread know of secrets, and the address
-- (include/cloud/aws.hpp, src/cloud/aws.cpp). The thread-local variables are a record that is passed
-- on, and objects are told apart by a number. Times are not negative.
pub mod Signer
pub mod Requests
pub mod Text
pub mod ReadBack
pub mod Parts
pub mod Sorted
pub mod Stale
pub mod Tests
use myblob.Base.{
  ℕ, zero, suc, ◌+◌, ◌-◌, ◌*◌, Bool, true, false, not, ◌&&◌, ◌||◌, Option, none, some, List, [],
  ◌∷◌, ◌++◌, ltb, ◌==◌, if◌then◌else◌, length, take, drop,
}
use myblob.Base.Text.{Bytes, codes, find}

pub record Settings : Type 0 where
  pub bucket : Bytes
  pub region : Bytes
  pub endpoint : Bytes
  pub port : ℕ
  pub https : Bool
  pub zonal : Bool

pub record Secret : Type 0 where
  pub key_id : Bytes
  pub secret : Bytes
  pub token : Bytes
  pub expiration : ℕ

pub record Aws : Type 0 where
  pub self : ℕ
  pub settings : Settings
  pub global_secret : Option Secret
  pub global_session_secret : Option Secret

pub record ThreadLocals : Type 0 where
  pub secret : Option Secret
  pub session_secret : Option Secret
  pub valid_instance : Option ℕ

abbrev pub multipart_upload_size : ℕ
multipart_upload_size = 128 * 1048576

abbrev pub is_empty : Bytes → Bool
is_empty [] = true
is_empty (c ∷ s) = false

abbrev pub is_some : Option Secret → Bool
is_some none = false
is_some (some s) = true

-- `_validInstance == this`.
abbrev pub is_valid_instance : Aws → Option ℕ → Bool
is_valid_instance aws none = false
is_valid_instance aws (some i) = i == aws.self

-- A secret without a token does not expire; `now` is the time in seconds.
unfoldable pub usable : ℕ → ℕ → Option Secret → Bool
usable offset now none = false
usable offset now (some s) =
    not ((not (is_empty s.token) && ltb s.expiration (now + offset)) || is_empty s.secret)

unfoldable pub valid_keys : ℕ → ℕ → Aws → ThreadLocals → Bool
valid_keys offset now aws t = is_valid_instance aws t.valid_instance && usable offset now t.secret

unfoldable pub valid_session : ℕ → ℕ → Aws → ThreadLocals → Bool
valid_session offset now aws t =
    is_valid_instance aws t.valid_instance && usable offset now t.session_secret

-- The first half of `getSecret`, and the second.
unfoldable pub take_secret : Aws → ThreadLocals → ThreadLocals
take_secret aws t =
    if not (is_some t.secret) || not (is_valid_instance aws t.valid_instance)
    then record t { secret = aws.global_secret; valid_instance = some aws.self }
    else t

unfoldable pub take_session_secret : Aws → ThreadLocals → ThreadLocals
take_session_secret aws t =
    if aws.settings.zonal
      && (not (is_some t.session_secret) || not (is_valid_instance aws t.valid_instance))
    then record t { session_secret = aws.global_session_secret; valid_instance = some aws.self }
    else t

unfoldable pub get_secret : Aws → ThreadLocals → ThreadLocals
get_secret aws t = take_session_secret aws (take_secret aws t)

unfoldable pub is_https : Settings → Bool
is_https s = if is_empty s.endpoint then true else s.https

-- `s.substr(pos)` throws behind the end.
abbrev pub substr_from : ℕ → Bytes → Option Bytes
substr_from pos s = if ltb (length s) pos then none else some (drop pos s)

-- The zone of a bucket `name--zone--x-s3`: `none` is an exception. A bucket of fewer than seventeen
-- characters makes `size() - 11` wrap round, and no `--` makes `find + 2` do so.
unfoldable pub zone : Bytes → Option Bytes
zone bucket =
    let name = if ltb (length bucket) 6 then bucket else take (length bucket - 6) bucket in
    if ltb (length name) 11
    then none
    else let tail = drop (length name - 11) name in
      elim (find (codes "--") tail) [
        | some pos ↦ substr_from (pos + 2) tail
        | none ↦ substr_from 1 tail
      ]

unfoldable pub get_address : Settings → Option Bytes
get_address s =
    if not (is_empty s.endpoint)
    then some s.endpoint
    else if s.zonal
    then elim (zone s.bucket) [
      | none ↦ none
      | some z ↦
          some
            (s.bucket ++ (codes ".s3express-" ++ (z ++ 46 ∷ (s.region ++ codes ".amazonaws.com"))))
    ]
    else some (s.bucket ++ (codes ".s3." ++ (s.region ++ codes ".amazonaws.com")))
