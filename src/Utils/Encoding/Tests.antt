-- ===== src/Utils/Encoding/Tests.antt =====
-- Examples for the encodings.
use myblob.Base.{◌≡◌, refl, arith}
use myblob.Base.Text.{codes}
use myblob.Utils.Encoding.{encode_url_parameters, encode_byte}
use myblob.Utils.Encoding.RoundTrip.{decode_url, decode_url-encode_url_parameters}

encoded : encode_url_parameters (codes "a/b=c d") ≡ codes "a%2Fb%3Dc%20d"
unfolding encode_url_parameters encode_byte
encoded = refl

decode_url-encode_url_parameters_example :
    decode_url (encode_url_parameters (codes "a/b=%")) ≡ codes "a/b=%"
decode_url-encode_url_parameters_example =
    decode_url-encode_url_parameters (codes "a/b=%") (omega arith)
