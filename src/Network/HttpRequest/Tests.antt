-- ===== src/Network/HttpRequest/Tests.antt =====
-- Requests on concrete inputs.
use myblob.Base.{◌≡◌, refl, [], ◌∷◌, ◌++◌, arith}
use myblob.Base.Text.{codes}
use myblob.Base.Map.{compare_bytes, IsMap}
use myblob.Network.HttpRequest.{
  Method, RequestType, HttpRequest, serialize, deserialize, write_headers, write_queries,
  get_request_method, get_request_type, newline,
}
use myblob.Network.HttpRequest.RoundTrip.{IsClean, deserialize-serialize}

abbrev put_part : HttpRequest
put_part = record {
  queries = (codes "part", codes "1") ∷ (codes "up", codes "x=y") ∷ [];
  headers = (codes "Host", codes "a:80") ∷ [];
  method = Method.put;
  type = RequestType.http_1_1;
  path = codes "/k";
}

put_part_text :
    serialize put_part
    ≡ codes "PUT /k?part=1&up=x=y HTTP/1.1"
      ++ (newline ++ (codes "Host: a:80" ++ (newline ++ newline)))
unfolding serialize write_headers write_queries get_request_method get_request_type
put_part_text = refl

put_part_sorted : IsMap put_part.queries
unfolding compare_bytes
put_part_sorted = (tt, ((refl, tt), tt))

put_part-IsClean : IsClean put_part
put_part-IsClean = record {
  path_no_query = ground arith;
  path_no_blank = ground arith;
  path_no_break = ground arith;
  queries_sorted = put_part_sorted;
  queries_clean = ground arith;
  queries_no_blank = ground arith;
  queries_no_break = ground arith;
  headers_sorted = (tt, tt);
  headers_clean = ground arith;
}

deserialize-serialize_example : deserialize (serialize put_part) ≡ put_part
deserialize-serialize_example = deserialize-serialize put_part put_part-IsClean
