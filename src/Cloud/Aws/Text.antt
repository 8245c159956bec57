-- ===== src/Cloud/Aws/Text.antt =====
-- The texts of signed requests: `buildRequest` in src/cloud/aws.cpp returns one.
use Prim.Native.Nat.{Ordering}
use myblob.Base.{
  ℕ, ◌≡◌, refl, ap, inl, inr, Bool, true, false, not, ◌&&◌, ◌||◌, Option, none, some, [], ◌∷◌, ◌++◌,
  if_lem, Bool-cases, length, leb, ok, arith,
}
use myblob.Base.Text.{Bytes, codes, eq_bytes, eq_bytes_refl}
use myblob.Base.Map.{Entries, emplace, lookup, compare_bytes}
use myblob.Network.HttpRequest.{HttpRequest}
use myblob.Cloud.Aws.{is_empty, Secret, get_address, usable, valid_keys, valid_session}
use myblob.Cloud.Aws.Signer.{
  Hashes, StringToSign, add_payload, encode_canonical_request, create_string_to_sign, string_text,
  authorized, create_signed_request, path_of, canonical_queries, has_md5,
}
use myblob.Cloud.Aws.Requests.{
  Setting, request_text, init_headers, signing_secret, sign, build_request, may_sign, signed,
}

-- The map has an entry for the key.
abbrev pub Found : Bytes → Entries → Type 0
Found k m = (w : Bytes) × (lookup k m ≡ some w)

pub compare_bytes-eq : (k j : Bytes) → compare_bytes k j ≡ Ordering.eq → eq_bytes k j ≡ true
unfolding compare_bytes eq_bytes
compare_bytes-eq [] [] h = refl
compare_bytes-eq [] (d ∷ t) h = absurd (grind arith)
compare_bytes-eq (c ∷ s) [] h = absurd (grind arith)
compare_bytes-eq (c ∷ s) (d ∷ t) h = ground (arith, compare_bytes-eq s t)

here : (k j v : Bytes) (m : Entries) → eq_bytes k j ≡ true → Found k ((j, v) ∷ m)
unfolding lookup
here k j v m e = (v, rw e refl)

Found-ahead : (k j v : Bytes) (m : Entries) → Found k m → Found k ((j, v) ∷ m)
unfolding lookup
Found-ahead k j v m h = elim (Bool-cases (eq_bytes k j)) [
  | inl e ↦ (v, rw e refl)
  | inr e ↦ (h.0, rw e h.1)
]

Found-behind :
    (k j v : Bytes) (m m' : Entries)
    → (Found k m → Found k m')
    → Found k ((j, v) ∷ m)
    → Found k ((j, v) ∷ m')
unfolding lookup
Found-behind k j v m m' f h = elim (Bool-cases (eq_bytes k j)) [
  | inl e ↦ (v, rw e refl)
  | inr e ↦ let g = f (h.0, rw e at h.1) in (g.0, rw e g.1)
]

-- What holds of each case, with its comparison.
case_lem :
    (P : Entries → Type 0) (o : Ordering) {a b c : Entries}
    → P a
    → (o ≡ Ordering.eq → P b)
    → P c
    → P (elim o [ Ordering.lt ↦ a | Ordering.eq ↦ b | Ordering.gt ↦ c ])
case_lem P Ordering.lt p q r = p
case_lem P Ordering.eq p q r = q refl
case_lem P Ordering.gt p q r = r

pub Found-emplace : (k j v : Bytes) (m : Entries) → Found k m → Found k (emplace j v m)
unfolding emplace
Found-emplace k j v [] h = Found-ahead k j v [] h
Found-emplace k j v ((i, w) ∷ m) h =
    case_lem (Found k) (compare_bytes j i) (Found-ahead k j v ((i, w) ∷ m) h) (λ e. h)
      (Found-behind k i w m (emplace j v m) (Found-emplace k j v m) h)

pub emplace-Found : (k v : Bytes) (m : Entries) → Found k (emplace k v m)
unfolding emplace
emplace-Found k v [] = here k k v [] (eq_bytes_refl k)
emplace-Found k v ((i, w) ∷ m) =
    case_lem (Found k) (compare_bytes k i) (here k k v ((i, w) ∷ m) (eq_bytes_refl k))
      (λ e. here k i w m (compare_bytes-eq k i e))
      (Found-ahead k i w (emplace k v m) (emplace-Found k v m))

date_key : Bytes
date_key = codes "x-amz-date"

add_payload-Found :
    (hashes : Hashes) (r : HttpRequest) (body k : Bytes)
    → Found k r.headers
    → Found k (add_payload hashes r body).1.headers
unfolding add_payload
add_payload-Found hashes r body k h =
    if_lem (λ (x : Bytes × HttpRequest). Found k x.1.headers) (leb (length body) 1024)
      (if_lem (Found k) (has_md5 r.method) (Found-emplace k _ _ _ (Found-emplace k _ _ r.headers h))
        (Found-emplace k _ _ r.headers h))
      (Found-emplace k _ _ r.headers h)

-- What signing leaves of a request.
record Same (r s : HttpRequest) : Type 0 where
  same_queries : s.queries ≡ r.queries
  same_path : s.path ≡ r.path
  same_method : s.method ≡ r.method
  same_type : s.type ≡ r.type

add_payload-Same :
    (hashes : Hashes) (r : HttpRequest) (body : Bytes) → Same r (add_payload hashes r body).1
unfolding add_payload
add_payload-Same hashes r body =
    if_lem (λ (x : Bytes × HttpRequest). Same r x.1) (leb (length body) 1024)
      (record { same_queries = refl; same_path = refl; same_method = refl; same_type = refl })
      (record { same_queries = refl; same_path = refl; same_method = refl; same_type = refl })

abbrev pub target_of : HttpRequest → Bytes
target_of r = path_of r ++ 63 ∷ canonical_queries r.queries

create_string_to_sign-date :
    (hashes : Hashes) (r : HttpRequest) (s : StringToSign) (date : Bytes)
    → lookup (codes "x-amz-date") r.headers ≡ some date
    → create_string_to_sign hashes r s ≡ ok (string_text hashes date s)
unfolding create_string_to_sign
create_string_to_sign-date hashes r s date e = rw (create_string_to_sign, e) refl

create_signed_request-returns :
    (hashes : Hashes) (key_id secret : Bytes) (r : HttpRequest) (s : StringToSign)
    → Found (codes "x-amz-date") r.headers
    → (headers : Entries) × (create_signed_request hashes key_id secret r s
        ≡ ok (target_of r, record r { headers = headers }))
unfolding create_signed_request
create_signed_request-returns hashes key_id secret r s (date, e) = (
  authorized hashes key_id secret s date (string_text hashes date s) r.headers,
  rw (create_signed_request, e, create_string_to_sign-date hashes r s date e) refl,
)

canonical-Found :
    (hashes : Hashes) (r : HttpRequest) (s : StringToSign) (body : Bytes)
    → Found (codes "x-amz-date") r.headers
    → Found (codes "x-amz-date") (encode_canonical_request hashes r s body).0.headers
unfolding encode_canonical_request
canonical-Found hashes r s body h = add_payload-Found hashes r body (codes "x-amz-date") h

canonical-Same :
    (hashes : Hashes) (r : HttpRequest) (s : StringToSign) (body : Bytes)
    → Same r (encode_canonical_request hashes r s body).0
unfolding encode_canonical_request
canonical-Same hashes r s body = add_payload-Same hashes r body

-- The same target and the same first line.
retarget :
    (r s : HttpRequest) (headers : Entries)
    → Same r s
    → request_text (record s { headers = headers }) (target_of s)
      ≡ request_text (record r { headers = headers }) (target_of r)
retarget r s headers h = rw (h.same_method, h.same_path, h.same_queries, h.same_type) refl

usable-some : (now : ℕ) (o : Option Secret) → usable 60 now o ≡ true → (s : Secret) × (o ≡ some s)
unfolding usable
usable-some now none h = absurd (grind arith)
usable-some now (some s) h = (s, refl)

and_left : (a b : Bool) → (a && b) ≡ true → a ≡ true
and_left true b h = refl
and_left false b h = h

and_right : (a b : Bool) → (a && b) ≡ true → b ≡ true
and_right true b h = h
and_right false b h = absurd (grind arith)

implied : (a b : Bool) → a ≡ true → (not a || b) ≡ true → b ≡ true
implied true b e h = h
implied false b e h = absurd (grind arith)

module _ (e : Setting) where
  abbrev to_sign : StringToSign
  to_sign = record {
    region = e.aws.settings.region;
    service = codes "s3";
    request_sha = [];
    signed_headers = [];
    payload_hash = [];
  }

  pub sign-returns :
      (s : Secret) (r : HttpRequest) (body : Bytes)
      → Found (codes "x-amz-date") r.headers
      → (headers : Entries) × (sign e s r body
          ≡ ok (request_text (record r { headers = headers }) (target_of r)))
  unfolding sign
  sign-returns s r body h =
      let c = encode_canonical_request e.hashes r to_sign body in
      let f = canonical-Found e.hashes r to_sign body h in
      let (headers, g) = create_signed_request-returns e.hashes s.key_id s.secret c.0 c.1 f in
      (headers, rw g (ap ok (retarget r c.0 headers (canonical-Same e.hashes r to_sign body))))

  valid_keys-secret :
      valid_keys 60 e.now e.aws e.locals ≡ true → (s : Secret) × (e.locals.secret ≡ some s)
  unfolding valid_keys
  valid_keys-secret h = usable-some e.now e.locals.secret (and_right _ _ h)

  valid_session-secret :
      valid_session 60 e.now e.aws e.locals ≡ true
      → (s : Secret) × (e.locals.session_secret ≡ some s)
  unfolding valid_session
  valid_session-secret h = usable-some e.now e.locals.session_secret (and_right _ _ h)

  signing_secret-some : may_sign e ≡ true → (s : Secret) × (signing_secret e ≡ some s)
  unfolding may_sign signing_secret
  signing_secret-some h = elim (Bool-cases e.aws.settings.zonal) [
    | inl z ↦
        let g =
          and_right (valid_keys 60 e.now e.aws e.locals)
            (not e.aws.settings.zonal || valid_session 60 e.now e.aws e.locals) h in
        let (s, f) = valid_session-secret (implied _ _ z g) in (s, rw (z, f) refl)
    | inr z ↦ let (s, f) = valid_keys-secret (and_left _ _ h) in (s, rw (z, f) refl)
  ]

  init_headers-Found :
      (address : Bytes) (s : Secret) (headers : Entries)
      → Found (codes "x-amz-date") (init_headers e address s headers)
  unfolding init_headers
  init_headers-Found address s headers =
      let d = emplace-Found (codes "x-amz-date") e.date (emplace (codes "Host") address headers) in
      let p =
        Found-emplace (codes "x-amz-date") (codes "x-amz-request-payer") (codes "requester") _ d in
      if_lem (Found (codes "x-amz-date")) e.aws.settings.zonal (Found-emplace _ _ _ _ d)
        (if_lem (Found (codes "x-amz-date")) (is_empty s.token) p (Found-emplace _ _ _ _ p))

  build_request-returns :
      (r : HttpRequest) (body address : Bytes) (s : Secret)
      → get_address e.aws.settings ≡ some address
      → signing_secret e ≡ some s
      → (headers : Entries) × (build_request e r body
          ≡ ok (request_text (record r { headers = headers }) (target_of r)))
  unfolding build_request
  build_request-returns r body address s a f =
      let (headers, g) =
        sign-returns s (record r { headers = init_headers e address s r.headers }) body
          (init_headers-Found address s r.headers) in
      (headers, rw (build_request, a, f) g)

  -- With valid secrets and an address, a request is signed
  pub signed-returns :
      (r : HttpRequest) (body address : Bytes)
      → may_sign e ≡ true
      → get_address e.aws.settings ≡ some address
      → (headers : Entries) × (signed e r body
          ≡ ok (some (request_text (record r { headers = headers }) (target_of r))))
  unfolding signed
  signed-returns r body address h a =
      let (s, f) = signing_secret-some h in
      let (headers, g) = build_request-returns r body address s a f in (headers, rw (h, g) refl)
