-- ===== src/Network/MessageResult/Tests.antt =====
-- A result on concrete inputs.
use myblob.Base.{ℕ, true, ◌<◌, ◌≡◌, refl, [], ◌∷◌, ◌++◌, none, some, arith, length, drop}
use myblob.Base.Text.{codes}
use myblob.Utils.DataVector.{DataVector}
use myblob.Network.HttpResponse.{Code, HttpType, HttpResponse, get_response_code, get_response_type}
use myblob.Network.HttpResponse.RoundTrip.{render, IsClean}
use myblob.Network.MessageResult.{MessageResult, get_result, get_offset, text_of}
use myblob.Network.MessageResult.Offset.{get_result-get_offset}

abbrev created : HttpResponse
created = record {
  headers = (codes "ETag", codes "x") ∷ [];
  code = Code.created_201;
  type = HttpType.http_1_1;
}

-- The vector has room for more than was received.
abbrev vector : DataVector ℕ
vector = record {
  capacity = 100;
  size = length (render created ++ codes "ok");
  data_owned = true;
  memory = some (render created ++ codes "ok" ++ codes "???");
}

abbrev result : MessageResult
result = record { data_vector = some vector; response = none }

vector_text : text_of vector ≡ render created ++ codes "ok"
unfolding get_response_code get_response_type
vector_text = refl

created_long : 4 < length (render created)
unfolding get_response_code get_response_type
created_long = omega arith

created-IsClean : IsClean created.headers
created-IsClean = omega arith

get_result-get_offset_example : drop (get_offset result) (get_result result) ≡ codes "ok"
get_result-get_offset_example =
    get_result-get_offset created (codes "ok") vector result refl created-IsClean vector_text
      created_long
