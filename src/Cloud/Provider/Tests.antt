-- ===== src/Cloud/Provider/Tests.antt =====
-- An address that is not remote.
use myblob.Base.{◌≡◌, refl, false}
use myblob.Base.Text.{Bytes, codes, starts_with}
use myblob.Cloud.Provider.{is_remote_file, any_prefix}

abbrev local_path : Bytes
local_path = codes "/tmp/f"

local_path_local : is_remote_file local_path ≡ false
unfolding is_remote_file any_prefix starts_with
local_path_local = refl
