-- ===== src/Cloud/RemoteInfo/Tests.antt =====
-- The parser on concrete locations.
use myblob.Base.{arith, ◌≡◌, refl, [], ◌∷◌, ◌++◌, ok, err, true, false}
use myblob.Base.Text.{codes, starts_with, find_byte, rfind_byte, Lacks}
use myblob.Cloud.RemoteInfo.{
  CloudService, RemoteInfo, BadNumber, parse_remote_info, parse_general, parse_min_io, port_number,
  skip_spaces, read_number, get_cloud_service,
}
use myblob.Cloud.RemoteInfo.Agree.{services_agree}

abbrev store : RemoteInfo
store = record {
  provider = CloudService.min_io;
  bucket = codes "b";
  region = [];
  endpoint = codes "host";
  path = codes "a/k";
  port = 443;
  https = true;
  zonal = false;
}

parsed_store : parse_remote_info (codes "minio://host:443/b/a/k") ≡ ok store
unfolding parse_remote_info parse_min_io port_number skip_spaces read_number starts_with find_byte
parsed_store = refl

-- A negative port wraps round.
wrapped_port : port_number (codes "-1") ≡ ok 65535
unfolding port_number skip_spaces read_number
wrapped_port = refl

no_port : parse_remote_info (codes "https://host:/k") ≡ err BadNumber.invalid_argument
unfolding parse_remote_info parse_general port_number skip_spaces read_number starts_with find_byte
    rfind_byte
no_port = refl

services_agree_example : store.provider ≡ get_cloud_service (codes "minio://host:443/b/a/k")
services_agree_example = services_agree (codes "minio://host:443/b/a/k") store parsed_store

read_port : port_number (codes "8080") ≡ ok 8080
unfolding port_number skip_spaces read_number
read_port = refl

address_ok : Lacks 47 (codes "[::1]" ++ 58 ∷ codes "8080")
address_ok = ground arith

port_ok : Lacks 58 (codes "8080")
port_ok = ground arith
