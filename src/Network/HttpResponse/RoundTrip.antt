-- ===== src/Network/HttpResponse/RoundTrip.antt =====
-- What the parser makes of a response in the form that the standard gives it.
use myblob.Base.{
  ℕ, zero, suc, ◌+◌, ◌<◌, ◌≡◌, ◌≢◌, refl, sym, ap, ◌∙◌, Bool, true, false, [], ◌∷◌, ◌++◌, arith,
  length, take-append, append_assoc, append-nil, ok, ◌>>=◌, if◌then◌else◌,
}
use myblob.Base.Text.{
  Bytes, codes, find-append, drop_past, is_empty, Lacks, Lacks-append, starts_with,
}
use myblob.Base.Map.{Entries, emplace, emplace_last, Ascending, IsMap}
use myblob.Network.HttpResponse.{
  Code, HttpType, HttpResponse, newline, no_response, get_response_code, get_response_type,
  match_code, response_type, status_line, header_line, read_lines, deserialize,
}
use myblob.Network.HttpResponse.Fuel.{read_lines_fuel}

-- The text of a response's head.
abbrev pub render_headers : Entries → Bytes
render_headers [] = newline
render_headers ((k, v) ∷ m) = (k ++ (codes ": " ++ v)) ++ (newline ++ render_headers m)

abbrev pub render : HttpResponse → Bytes
render r =
    (get_response_type r.type ++ (codes " " ++ get_response_code r.code))
    ++ (newline ++ render_headers r.headers)

-- No key holds a colon or a carriage return, and no value a carriage return.
abbrev pub IsClean : Entries → Type 0
IsClean [] = Unit
IsClean ((k, v) ∷ m) = Lacks 58 k × Lacks 13 k × Lacks 13 v × IsClean m

read_step :
    (f : ℕ) (line rest : Bytes) (first : Bool) (r : HttpResponse)
    → Lacks 13 line
    → is_empty line ≡ false
    → read_lines (suc f) (line ++ (newline ++ rest)) first r ≡ (
        (if first then status_line line r else header_line line r) >>= λ r'.
        read_lines f rest false r')
unfolding read_lines
read_step f line rest first r h e =
    rw (find-append 13 (10 ∷ []) line rest h, take-append line (newline ++ rest), e, read_lines)
      (simp
        (take-append line (newline ++ rest), drop_past line newline rest (length line + 2) refl))

header_line_parses :
    (k v : Bytes) (r : HttpResponse)
    → Lacks 58 k
    → header_line (k ++ (codes ": " ++ v)) r ≡ ok (record r { headers = emplace k v r.headers })
unfolding header_line
header_line_parses k v r h = rw (
  find-append 58 (32 ∷ []) k v h,
  take-append k (codes ": " ++ v),
  drop_past k (codes ": ") v (length k + 2) refl,
  header_line,
)

line-ne-empty : (k v : Bytes) → is_empty (k ++ (codes ": " ++ v)) ≡ false
line-ne-empty [] v = refl
line-ne-empty (c ∷ k) v = refl

-- The loop from the headers on: the entries come back, and what follows the head is not read.
read_headers :
    (f : ℕ) (m : Entries) (front : Entries) (body : Bytes) (r : HttpResponse)
    → length m < f
    → r.headers ≡ front
    → Ascending front m
    → IsClean m
    → read_lines f (render_headers m ++ body) false r ≡ ok (record r { headers = front ++ m })
unfolding read_lines
read_headers zero m front body r h e a c = absurd (omega arith)
read_headers (suc f) [] front body r h e a c =
    rw (find-append 13 (10 ∷ []) [] body tt, read_lines)
      (ap (λ t. ok (record r { headers = t })) (e ∙ sym (append-nil front)))
read_headers (suc f) ((k, v) ∷ m) front body r h e a c =
    let line = k ++ (codes ": " ++ v) in
    let r' = record r { headers = emplace k v r.headers } in
    let no_break : Lacks 13 line =
      Lacks-append 13 k (codes ": " ++ v) c.1 ((λ q. cc, ((λ q. cc), c.2))) in
    let grown : emplace k v r.headers ≡ front ++ (k, v) ∷ [] = rw e (emplace_last k v front a.0) in
    ap (λ t. read_lines (suc f) t false r) (append_assoc line (newline ++ render_headers m) body)
    ∙ read_step f line (render_headers m ++ body) false r no_break (line-ne-empty k v)
    ∙ ap (λ p. p >>= λ t. read_lines f (render_headers m ++ body) false t)
        (header_line_parses k v r c.0)
    ∙ read_headers f m (front ++ (k, v) ∷ []) body r' (omega arith) grown a.1 c.3
    ∙ ap (λ t. ok (record r { headers = t })) (append_assoc front ((k, v) ∷ []) m)

status_line_parses :
    (t : HttpType) (c : Code) (r : HttpResponse)
    → c ≢ Code.unknown
    → status_line (get_response_type t ++ (codes " " ++ get_response_code c)) r
      ≡ ok (record r { type = t; code = c })
unfolding status_line response_type match_code starts_with get_response_code get_response_type
status_line_parses t Code.unknown r h = absurd (h refl)
status_line_parses HttpType.http_1_0 Code.ok_200 r h = refl
status_line_parses HttpType.http_1_1 Code.ok_200 r h = refl
status_line_parses HttpType.http_1_0 _ r h = refl
status_line_parses HttpType.http_1_1 _ r h = refl

pub type-Lacks : (t : HttpType) → Lacks 13 (get_response_type t)
unfolding get_response_type
type-Lacks HttpType.http_1_0 = omega arith
type-Lacks _ = omega arith

pub code-Lacks : (c : Code) → Lacks 13 (get_response_code c)
unfolding get_response_code
code-Lacks Code.ok_200 = omega arith
code-Lacks _ = omega arith

type-ne-empty : (t : HttpType) (s : Bytes) → is_empty (get_response_type t ++ s) ≡ false
unfolding get_response_type
type-ne-empty HttpType.http_1_0 s = refl
type-ne-empty _ s = refl

-- Where a response has a known code, its headers are a map, no key holds a colon or a carriage
-- return and no value a carriage return, the parser returns it from its rendered head, whatever
-- stands behind the head: version, code and all headers.
pub deserialize-render :
    (r : HttpResponse) (body : Bytes)
    → r.code ≢ Code.unknown
    → IsMap r.headers
    → IsClean r.headers
    → deserialize (render r ++ body) ≡ ok r
unfolding deserialize
deserialize-render r body known sorted clean =
    let line = get_response_type r.type ++ (codes " " ++ get_response_code r.code) in
    let text = render r ++ body in
    let tail = render_headers r.headers ++ body in
    let fuel = length text + suc (length r.headers) in
    let no_break : Lacks 13 line =
      Lacks-append 13 (get_response_type r.type) (codes " " ++ get_response_code r.code)
        (type-Lacks r.type) ((λ q. cc), code-Lacks r.code) in
    read_lines_fuel (suc (length text)) (suc fuel) text true no_response (omega arith) (omega arith)
    ∙ ap (λ t. read_lines (suc fuel) t true no_response)
        (append_assoc line (newline ++ render_headers r.headers) body)
    ∙ read_step fuel line tail true no_response no_break (type-ne-empty r.type _)
    ∙ ap (λ p. p >>= λ t. read_lines fuel tail false t)
        (status_line_parses r.type r.code no_response known)
    ∙ read_headers fuel r.headers [] body (record no_response { type = r.type; code = r.code })
        (omega arith) refl sorted clean
