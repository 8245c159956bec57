-- ===== src/Cloud/Provider.antt =====
-- Which addresses are remote, and the names of the services: src/cloud/provider.cpp and
-- include/cloud/provider.hpp. `get_cloud_service` stands in `RemoteInfo`.
pub mod Tests
use myblob.Base.{
  ◌≡◌, refl, sym, ap, ◌∙◌, Bool, true, false, ◌||◌, List, [], ◌∷◌, arith, if◌then◌else◌, ok, drop,
  take, Option, none, some, ◌+◌, Bool-cases, inl, inr,
}
use myblob.Base.Text.{Bytes, codes, starts_with, find, find_byte}
use myblob.Cloud.RemoteInfo.{
  CloudService, RemoteInfo, default_info, parse_remote_info, get_cloud_service,
}

abbrev pub remote_file : List Bytes
remote_file =
    codes "https://"
    ∷ codes "http://"
    ∷ codes "s3://"
    ∷ codes "azure://"
    ∷ codes "gs://"
    ∷ codes "oci://"
    ∷ codes "ibm://"
    ∷ codes "minio://"
    ∷ []

-- The loop over the prefixes.
unfoldable pub any_prefix : List Bytes → Bytes → Bool
any_prefix [] url = false
any_prefix (p ∷ ps) url = let rest = any_prefix ps url in if starts_with p url then true else rest

unfoldable pub is_remote_file : Bytes → Bool
is_remote_file url = any_prefix remote_file url

unfoldable pub get_cloud_service_name : CloudService → Bytes
get_cloud_service_name CloudService.https = codes "HTTPS"
get_cloud_service_name CloudService.http = codes "HTTP"
get_cloud_service_name CloudService.aws = codes "AWS"
get_cloud_service_name CloudService.azure = codes "Azure"
get_cloud_service_name CloudService.gcp = codes "GCP"
get_cloud_service_name CloudService.oracle = codes "Oracle"
get_cloud_service_name CloudService.ibm = codes "IBM"
get_cloud_service_name CloudService.min_io = codes "MinIO"
get_cloud_service_name CloudService.local = codes "Unknown"

-- The text up to the next quotation mark.
unfoldable pub quoted : Bytes → Bytes
quoted s = elim (find_byte 34 s) [ none ↦ [] | some end ↦ take end s ]

-- What stands in quotation marks behind the first needle that is there.
unfoldable pub get_etag : Bytes → Bytes
get_etag header = elim (find (codes "ETag: \"") header) [
  | some pos ↦ quoted (drop (pos + 7) header)
  | none ↦ elim (find (codes "etag: \"") header) [
    | some pos ↦ quoted (drop (pos + 7) header)
    | none ↦ []
  ]
]

unfoldable pub get_upload_id : Bytes → Bytes
get_upload_id body = elim (find (codes "<UploadId>") body) [
  | none ↦ []
  | some start ↦
      let rest = drop (start + 10) body in
      elim (find (codes "</UploadId>") rest) [ none ↦ [] | some end ↦ take end rest ]
]

-- For an address that `isRemoteFile` does not take for a remote one, `parseRemoteInfo` returns the
-- default values without an exception, and `getCloudService` gives HTTPS.
pub local_defaults :
    (url : Bytes)
    → is_remote_file url ≡ false
    → (parse_remote_info url ≡ ok default_info) × (get_cloud_service url ≡ CloudService.https)
unfolding is_remote_file any_prefix parse_remote_info get_cloud_service
local_defaults url h = ground arith
