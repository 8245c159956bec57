-- ===== src/Cloud/RemoteInfo/Agree.antt =====
-- What the two readings of a location have in common.
use mathlib.Core.Path.{subst}
use myblob.Base.{take-append}
use myblob.Base.{
  ℕ, ◌≡◌, refl, Bool, true, false, none, some, [], ◌∷◌, ◌++◌, arith, length, drop, Result, ok, err,
  ◌>>=◌, if◌then◌else◌, Bool-cases, inl, inr,
}
use myblob.Base.Text.{
  Bytes, codes, starts_with, find_byte, rfind_byte, Lacks, find_byte-append, drop_behind,
}
use myblob.Cloud.RemoteInfo.{
  CloudService, RemoteInfo, BadNumber, default_info, secure, port_number, before, parse_s3,
  parse_min_io, parse_general, general_port, min_io_port, parse_remote_info, get_cloud_service,
}

-- The parser throws, or says the same provider.
abbrev Says : CloudService → Result BadNumber RemoteInfo → Type 0
Says service (err e) = Unit
Says service (ok info) = info.provider ≡ service

then-Says :
    (service : CloudService) (port : Result BadNumber ℕ) (f : ℕ → Result BadNumber RemoteInfo)
    → ((n : ℕ) → Says service (f n))
    → Says service (port >>= f)
then-Says service (err e) f h = tt
then-Says service (ok n) f h = h n

parse_general-Says : (info : RemoteInfo) (s : Bytes) → Says info.provider (parse_general info s)
unfolding parse_general
parse_general-Says info s =
    then-Says info.provider
      (general_port (rfind_byte 58 (before (find_byte 47 s) s)) (before (find_byte 47 s) s)
        info.port)
      _ (λ n. refl)

parse_min_io-Says : (s : Bytes) → Says CloudService.min_io (parse_min_io s)
unfolding parse_min_io
parse_min_io-Says s =
    then-Says CloudService.min_io
      (min_io_port (find_byte 58 (before (find_byte 47 s) s)) (before (find_byte 47 s) s)) _
      (λ n. refl)

if-Says :
    (b : Bool) (s t : CloudService) (r q : Result BadNumber RemoteInfo)
    → Says s r
    → Says t q
    → Says (if b then s else t) (if b then r else q)
if-Says true s t r q h k = h
if-Says false s t r q h k = k

min_io_alone :
    (url : Bytes)
    → starts_with (codes "minio://") url ≡ true
    → (starts_with (codes "oci://") url ≡ false) × (starts_with (codes "ibm://") url ≡ false)
unfolding starts_with
min_io_alone [] h = cc
min_io_alone (c ∷ url) h = ground arith

last-Says :
    (url : Bytes)
    → Says
        (if starts_with (codes "oci://") url
          then CloudService.oracle
          else if starts_with (codes "ibm://") url
          then CloudService.ibm
          else if starts_with (codes "minio://") url
          then CloudService.min_io
          else CloudService.https)
        (if starts_with (codes "minio://") url
          then parse_min_io (drop 8 url)
          else if starts_with (codes "oci://") url
          then parse_general (secure CloudService.oracle) (drop 6 url)
          else if starts_with (codes "ibm://") url
          then parse_general (secure CloudService.ibm) (drop 6 url)
          else ok default_info)
last-Says url = elim (Bool-cases (starts_with (codes "minio://") url)) [
  | inl e ↦ let (o, i) = min_io_alone url e in rw (e, o, i) (parse_min_io-Says (drop 8 url))
  | inr e ↦ rw e (
      if-Says (starts_with (codes "oci://") url) _ _ _ _
        (parse_general-Says (secure CloudService.oracle) (drop 6 url))
        (if-Says (starts_with (codes "ibm://") url) _ _ _ _
          (parse_general-Says (secure CloudService.ibm) (drop 6 url)) refl))
]

service-Says : (url : Bytes) → Says (get_cloud_service url) (parse_remote_info url)
unfolding get_cloud_service parse_remote_info parse_s3
service-Says url =
    if-Says (starts_with (codes "https://") url) _ _ _ _
      (parse_general-Says (secure CloudService.https) (drop 8 url))
      (if-Says (starts_with (codes "http://") url) _ _ _ _
        (parse_general-Says (record default_info { provider = CloudService.http; https = false })
          (drop 7 url))
        (if-Says (starts_with (codes "s3://") url) _ _ _ _ refl (
          if-Says (starts_with (codes "azure://") url) _ _ _ _
            (parse_general-Says (secure CloudService.azure) (drop 8 url))
            (if-Says (starts_with (codes "gs://") url) _ _ _ _
              (parse_general-Says (secure CloudService.gcp) (drop 5 url)) (last-Says url)))))

-- For every text that `parseRemoteInfo` reads without an exception, its provider is the one that
-- `getCloudService` gives, though the two try the prefixes in different orders.
pub services_agree :
    (url : Bytes) (info : RemoteInfo)
    → parse_remote_info url ≡ ok info
    → info.provider ≡ get_cloud_service url
services_agree url info h = subst (Says (get_cloud_service url)) h (service-Says url)

rfind_byte-Lacks : (c : ℕ) (t : Bytes) → Lacks c t → rfind_byte c t ≡ none
unfolding rfind_byte
rfind_byte-Lacks c [] h = refl
rfind_byte-Lacks c (d ∷ t) h = ground (arith, rfind_byte-Lacks c t h.1)

rfind_byte-append : (c : ℕ) (s t : Bytes) → Lacks c t → rfind_byte c (s ++ c ∷ t) ≡ some (length s)
unfolding rfind_byte
rfind_byte-append c [] t h = ground (arith, rfind_byte-Lacks c t h)
rfind_byte-append c (d ∷ s) t h = rw (rfind_byte-append c s t h) refl

-- Host, port and path of an address, where host and port hold no slash, the port no colon and is a
-- number that `std::stoi` reads, are what `parseRemoteInfo` finds in it behind the prefix; the host
-- may hold colons.
pub parse_general-address :
    (info : RemoteInfo) (host digits path : Bytes) (port : ℕ)
    → Lacks 47 (host ++ 58 ∷ digits)
    → Lacks 58 digits
    → port_number digits ≡ ok port
    → parse_general info ((host ++ 58 ∷ digits) ++ 47 ∷ path)
      ≡ ok (record info { endpoint = host; path = path; port = port })
unfolding parse_general
parse_general-address info host digits path port l c h =
    rw
      (
        find_byte-append 47 (host ++ 58 ∷ digits) path l,
        take-append (host ++ 58 ∷ digits) (47 ∷ path),
        rfind_byte-append 58 host digits c,
        drop_behind (host ++ 58 ∷ digits) 47 path,
        take-append host (58 ∷ digits),
        drop_behind host 58 digits,
        h,
      )
      refl
