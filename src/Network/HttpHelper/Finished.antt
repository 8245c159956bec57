-- ===== src/Network/HttpHelper/Finished.antt =====
-- When a response counts as received, by the three ways in which its head may state the end.
use myblob.Base.{
  ℕ, ◌+◌, ◌^◌, ◌<◌, ◌≤◌, ◌≡◌, ◌≢◌, refl, sym, ap, ◌∙◌, true, false, none, some, [], ◌∷◌, ◌++◌,
  arith, length, length-append, ok, inl, inr, leb, drop, Bool-cases,
}
use myblob.Base.Words.{sub64, add64}
use myblob.Base.Text.{Bytes, codes, starts_with, eq_bytes, eq_bytes_iff, find-le, find-length}
use myblob.Base.Map.{Entries, IsMap}
use myblob.Network.HttpResponse.{HttpResponse, Code, deserialize, without_content}
use myblob.Network.HttpResponse.RoundTrip.{render, IsClean, deserialize-render}
use myblob.Network.HttpHelper.Head.{head_length-render}
use myblob.Network.HttpHelper.{
  Info, Encoding, head_length, detect_header, detect_headers, detect, is_unknown, from_chars,
  finished, finished_info, known_info, chunked_end,
}

-- Neither header that states how the content ends is among the entries.
abbrev pub Plain : Entries → Type 0
Plain [] = Unit
Plain ((k, v) ∷ m) = (k ≢ codes "Transfer-Encoding") × (k ≢ codes "Content-Length") × Plain m

ne-eq_bytes : (s t : Bytes) → s ≢ t → eq_bytes t s ≡ false
ne-eq_bytes s t h = elim (Bool-cases (eq_bytes t s)) [
  | inl e ↦ absurd (h (sym ((eq_bytes_iff t s).0 e)))
  | inr e ↦ e
]

detect_headers-Plain :
    (header : Bytes) (m : Entries) (info : Info) → Plain m → detect_headers header m info ≡ info
unfolding detect_headers detect_header
detect_headers-Plain header [] info p = refl
detect_headers-Plain header ((k, v) ∷ m) info p =
    rw (ne-eq_bytes k (codes "Transfer-Encoding") p.0, ne-eq_bytes k (codes "Content-Length") p.1)
      (detect_headers-Plain header m info p.2)

detect_headers-append :
    (header : Bytes) (m n : Entries) (info : Info)
    → detect_headers header (m ++ n) info ≡ detect_headers header n (detect_headers header m info)
unfolding detect_headers
detect_headers-append header [] n info = refl
detect_headers-append header ((k, v) ∷ m) n info =
    detect_headers-append header m n (detect_header header k v info)

-- The one header that counts decides.
detect_headers-at :
    (header k v : Bytes) (a b : Entries) (info : Info)
    → Plain a
    → Plain b
    → detect_headers header (a ++ (k, v) ∷ b) info ≡ detect_header header k v info
unfolding detect_headers
detect_headers-at header k v a b info p q =
    detect_headers-append header a ((k, v) ∷ b) info
    ∙ ap (detect_headers header ((k, v) ∷ b)) (detect_headers-Plain header a info p)
    ∙ detect_headers-Plain header b (detect_header header k v info) q

-- A head that has arrived whole, with the header that says how the content ends.
pub record Stated (r : HttpResponse) (k v : Bytes) (a b : Entries) : Type 0 where
  pub known : r.code ≢ Code.unknown
  pub has_content : without_content r.code ≡ false
  pub sorted : IsMap r.headers
  pub clean : IsClean r.headers
  pub short : length (render r) < 2 ^ 32
  pub found : r.headers ≡ a ++ (k, v) ∷ b
  pub before : Plain a
  pub behind : Plain b

abbrev pub content_length : Bytes
content_length = codes "Content-Length"

leb_self : (a b : ℕ) → leb a (a + b) ≡ true
leb_self a b = ground arith

abbrev pub transfer_encoding : Bytes
transfer_encoding = codes "Transfer-Encoding"

detect_known :
    (text : Bytes) (r : HttpResponse) (info : Info)
    → deserialize text ≡ ok r
    → detect_headers text r.headers
        (record { response = r; length = 0; header_length = 0; encoding = Encoding.unknown })
      ≡ info
    → is_unknown info.encoding ≡ false
    → without_content r.code ≡ false
    → detect text ≡ ok info
unfolding detect
detect_known text r info p h u w = rw (p, h, u, w)

abbrev start : HttpResponse → Info
start r = record { response = r; length = 0; header_length = 0; encoding = Encoding.unknown }

header_content_length :
    (header v : Bytes) (info : Info)
    → detect_header header content_length v info ≡ record info {
      length = from_chars v info.length;
      header_length = head_length header;
      encoding = Encoding.content_length;
    }
unfolding detect_header eq_bytes
header_content_length header v info = refl

header_chunked :
    (header : Bytes) (info : Info)
    → detect_header header transfer_encoding (codes "chunked") info
      ≡ record info { header_length = head_length header; encoding = Encoding.chunked_encoding }
unfolding detect_header eq_bytes
header_chunked header info = refl

leb_cancel : (a b c : ℕ) → a + b < 2 ^ 64 → leb (add64 a b) (a + c) ≡ leb b c
leb_cancel a b c h = ground arith

leb_cancel' : (a b c : ℕ) → leb (a + b) (a + c) ≡ leb b c
leb_cancel' a b c = ground arith

module _ (r : HttpResponse) (v body : Bytes) (a b : Entries) where
  -- The head's facts, as `detect` finds them in a response with a stated length.
  abbrev pub sized_info : Info
  sized_info = record {
    response = r;
    length = from_chars v 0;
    header_length = length (render r);
    encoding = Encoding.content_length;
  }

  pub detect-content_length :
      Stated r content_length v a b → detect (render r ++ body) ≡ ok sized_info
  detect-content_length s =
      detect_known (render r ++ body) r sized_info
        (deserialize-render r body s.known s.sorted s.clean)
        (ap (λ m. detect_headers (render r ++ body) m (start r)) s.found
          ∙ detect_headers-at (render r ++ body) content_length v a b (start r) s.before s.behind
          ∙ header_content_length (render r ++ body) v (start r)
          ∙ ap (λ n. record sized_info { header_length = n })
              (head_length-render r body s.clean s.short))
        refl s.has_content

  -- The text is a rendered head of fewer than 2 ^ 32 bytes, its code known and one that has
  -- content, its keys in order and clean, with one `Content-Length` among headers that say nothing
  -- of lengths, and a body. Where head and stated length stay below 2 ^ 64 together, `finished` on
  -- it says whether the body has as many bytes as the head states, and notes the head's facts.
  pub finished-content_length :
      Stated r content_length v a b
      → length (render r) + from_chars v 0 < 2 ^ 64
      → finished (render r ++ body) none
        ≡ (ok (leb (from_chars v 0) (length body)), some sized_info)
  unfolding finished known_info finished_info
  finished-content_length s small =
      rw
        (
          detect-content_length s,
          finished,
          known_info,
          s.has_content,
          length-append (render r) body,
        )
        (ap (λ t. (ok t, some sized_info))
          (leb_cancel (length (render r)) (from_chars v 0) (length body) small))

  abbrev pub chunked_info : Info
  chunked_info = record {
    response = r;
    length = 0;
    header_length = length (render r);
    encoding = Encoding.chunked_encoding;
  }

  pub detect_chunked :
      Stated r transfer_encoding v a b
      → v ≡ codes "chunked"
      → detect (render r ++ body) ≡ ok chunked_info
  detect_chunked s e =
      detect_known (render r ++ body) r chunked_info
        (deserialize-render r body s.known s.sorted s.clean)
        (ap (λ m. detect_headers (render r ++ body) m (start r)) s.found
          ∙ detect_headers-at (render r ++ body) transfer_encoding v a b (start r) s.before s.behind
          ∙ ap (λ t. detect_header (render r ++ body) transfer_encoding t (start r)) e
          ∙ header_chunked (render r ++ body) (start r)
          ∙ ap (λ n. record chunked_info { header_length = n })
              (head_length-render r body s.clean s.short))
        refl s.has_content

-- A response noted as chunked, with content and a head shorter than 2 ^ 32, whose terminator's
-- bytes stand at a place inside the head, as when the last header's value ends in `0`, is taken
-- for whole, and the length that is noted wraps round.
pub finished_too_early :
    (text : Bytes) (info : Info) (k : ℕ)
    → without_content info.response.code ≡ false
    → info.encoding ≡ Encoding.chunked_encoding
    → starts_with chunked_end (drop k text) ≡ true
    → k < info.header_length
    → info.header_length < 2 ^ 32
    → (n : ℕ) × (finished text (some info) ≡ (ok true, some (record info { length = n })))
      × (2 ^ 64 ≤ n + info.header_length)
unfolding finished known_info finished_info
finished_too_early text info k w c h l b =
    let (i, e, j) = find-le chunked_end text k h in
    (sub64 i info.header_length, ground (arith, e), omega (arith, find-length chunked_end text i e))
