-- ===== src/Cloud/RemoteInfo.antt =====
-- Where an object lies: include/cloud/cloud_service.hpp, and the choice of the provider in
-- src/cloud/provider.cpp. `std::stoi` is the standard library's: leading white space and a sign,
-- then digits, else an exception; what it returns is cut to 16 bits.
pub mod Agree
pub mod Tests
use Prim.Native.Nat.{◌%◌, ◌*◌}
use myblob.Base.{
  ℕ, zero, suc, ◌+◌, ◌-◌, ◌^◌, ◌≡◌, refl, Bool, true, false, not, ◌&&◌, ◌||◌, Option, none, some,
  List, [], ◌∷◌, ◌++◌, arith, ltb, leb, ◌==◌, if◌then◌else◌, take, drop, length, Result, ok, err,
  ◌>>=◌,
}
use myblob.Base.Text.{Bytes, codes, eq_bytes, starts_with, find_byte, rfind_byte}

pub data CloudService : Type 0 where
  https http aws azure gcp oracle ibm min_io local : CloudService

pub record RemoteInfo : Type 0 where
  pub provider : CloudService
  pub bucket : Bytes
  pub region : Bytes
  pub endpoint : Bytes
  pub path : Bytes
  pub port : ℕ
  pub https : Bool
  pub zonal : Bool

-- What `std::stoi` throws.
pub data BadNumber : Type 0 where
  invalid_argument out_of_range : BadNumber

abbrev pub default_info : RemoteInfo
default_info = record {
  provider = CloudService.https;
  bucket = [];
  region = [];
  endpoint = [];
  path = [];
  port = 80;
  https = true;
  zonal = false;
}

-- `std::isspace` in the C locale.
abbrev pub is_space : ℕ → Bool
is_space c = (c == 32) || (leb 9 c && leb c 13)

unfoldable pub skip_spaces : Bytes → Bytes
skip_spaces [] = []
skip_spaces (c ∷ s) = let rest = skip_spaces s in if is_space c then rest else c ∷ s

abbrev pub is_digit : ℕ → Bool
is_digit c = leb 48 c && leb c 57

unfoldable pub read_number : ℕ → Bytes → ℕ
read_number acc [] = acc
read_number acc (c ∷ s) =
    let rest = read_number (acc * 10 + (c - 48)) s in if is_digit c then rest else acc

abbrev pub starts_with_digit : Bytes → Bool
starts_with_digit [] = false
starts_with_digit (c ∷ s) = is_digit c

-- The sign, true for minus, and the rest.
abbrev pub read_sign : Bytes → Bool × Bytes
read_sign [] = (false, [])
read_sign (c ∷ s) = if c == 45 then (true, s) else if c == 43 then (false, s) else (false, c ∷ s)

-- `static_cast<uint16_t>(std::stoi(s))`; an `int` has 32 bits.
unfoldable pub port_number : Bytes → Result BadNumber ℕ
unfolding skip_spaces read_number
port_number s =
    let (minus, digits) = read_sign (skip_spaces s) in
    let n = read_number 0 digits in
    if not (starts_with_digit digits)
    then err BadNumber.invalid_argument
    else if minus
    then (if ltb (2 ^ 31) n
        then err BadNumber.out_of_range
        else ok ((2 ^ 16 - n % 2 ^ 16) % 2 ^ 16))
    else if leb (2 ^ 31) n
    then err BadNumber.out_of_range
    else ok (n % 2 ^ 16)

-- The text in front of the position, or all of it; and behind it, or nothing.
abbrev pub before : Option ℕ → Bytes → Bytes
before none s = s
before (some i) s = take i s

abbrev pub behind : Option ℕ → Bytes → Bytes
behind none s = []
behind (some i) s = drop (i + 1) s

-- `s3://bucket/path`.
unfoldable pub parse_s3 : Bytes → RemoteInfo
parse_s3 remaining =
    let slash_pos = find_byte 47 remaining in
    let bucket = before slash_pos remaining in
    record {
      provider = CloudService.aws;
      bucket = bucket;
      region = codes "us-east-1";
      endpoint = bucket ++ codes ".s3.amazonaws.com";
      path = behind slash_pos remaining;
      port = 443;
      https = true;
      zonal = false;
    }

abbrev pub min_io_port : Option ℕ → Bytes → Result BadNumber ℕ
min_io_port none host_port = ok 9000
min_io_port (some colon) host_port = port_number (drop (colon + 1) host_port)

-- `minio://host:port/bucket/path`.
unfoldable pub parse_min_io : Bytes → Result BadNumber RemoteInfo
parse_min_io remaining =
    let slash_pos = find_byte 47 remaining in
    let host_port = before slash_pos remaining in
    let colon = find_byte 58 host_port in
    let bucket_and_path = behind slash_pos remaining in
    let bucket_end = find_byte 47 bucket_and_path in
    min_io_port colon host_port >>= λ port. ok (record {
      provider = CloudService.min_io;
      bucket = before bucket_end bucket_and_path;
      region = [];
      endpoint = before colon host_port;
      path = behind bucket_end bucket_and_path;
      port = port;
      https = port == 443;
      zonal = false;
    })

abbrev pub general_port : Option ℕ → Bytes → ℕ → Result BadNumber ℕ
general_port none host_port port = ok port
general_port (some colon) host_port port = port_number (drop (colon + 1) host_port)

-- The general case: host, port and path, behind the prefix.
unfoldable pub parse_general : RemoteInfo → Bytes → Result BadNumber RemoteInfo
parse_general info remaining =
    let slash_pos = find_byte 47 remaining in
    let host_port = before slash_pos remaining in
    let colon = rfind_byte 58 host_port in
    general_port colon host_port info.port >>= λ port. ok (record info {
      endpoint = before colon host_port;
      path = behind slash_pos remaining;
      port = port;
    })

abbrev pub secure : CloudService → RemoteInfo
secure service = record default_info { provider = service; port = 443 }

unfoldable pub parse_remote_info : Bytes → Result BadNumber RemoteInfo
parse_remote_info url =
    if starts_with (codes "https://") url
    then parse_general (secure CloudService.https) (drop 8 url)
    else if starts_with (codes "http://") url
    then parse_general (record default_info { provider = CloudService.http; https = false })
        (drop 7 url)
    else if starts_with (codes "s3://") url
    then ok (parse_s3 (drop 5 url))
    else if starts_with (codes "azure://") url
    then parse_general (secure CloudService.azure) (drop 8 url)
    else if starts_with (codes "gs://") url
    then parse_general (secure CloudService.gcp) (drop 5 url)
    else if starts_with (codes "minio://") url
    then parse_min_io (drop 8 url)
    else if starts_with (codes "oci://") url
    then parse_general (secure CloudService.oracle) (drop 6 url)
    else if starts_with (codes "ibm://") url
    then parse_general (secure CloudService.ibm) (drop 6 url)
    else ok default_info

-- `Provider::getCloudService`.
unfoldable pub get_cloud_service : Bytes → CloudService
get_cloud_service url =
    if starts_with (codes "https://") url
    then CloudService.https
    else if starts_with (codes "http://") url
    then CloudService.http
    else if starts_with (codes "s3://") url
    then CloudService.aws
    else if starts_with (codes "azure://") url
    then CloudService.azure
    else if starts_with (codes "gs://") url
    then CloudService.gcp
    else if starts_with (codes "oci://") url
    then CloudService.oracle
    else if starts_with (codes "ibm://") url
    then CloudService.ibm
    else if starts_with (codes "minio://") url
    then CloudService.min_io
    else CloudService.https
