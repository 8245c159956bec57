-- ===== src/Network/HttpHelper/Head.antt =====
-- What `detect` makes of a response whose head has arrived whole.
use myblob.Base.{
  ℕ, ◌+◌, ◌^◌, ◌<◌, ◌≡◌, refl, ap, ◌∙◌, false, some, [], ◌∷◌, ◌++◌, arith, length, length-append,
  append_assoc,
}
use myblob.Base.Text.{Bytes, codes, find, find_skip, starts_with, Lacks, Lacks-append}
use myblob.Base.Map.{Entries}
use myblob.Network.HttpResponse.{HttpResponse, newline, get_response_type, get_response_code}
use myblob.Network.HttpResponse.RoundTrip.{render, render_headers, IsClean, type-Lacks, code-Lacks}
use myblob.Network.HttpHelper.{header_end, head_length}

-- A header line does not begin with a line break.
line_starts : (k s : Bytes) → Lacks 13 k → starts_with newline (k ++ 58 ∷ s) ≡ false
unfolding starts_with
line_starts [] s h = refl
line_starts (c ∷ k) s h = ground arith

at_once : (body : Bytes) → find header_end (newline ++ (newline ++ body)) ≡ some 0
unfolding find starts_with
at_once body = refl

break_then :
    (s : Bytes) (n : ℕ)
    → starts_with newline s ≡ false
    → find header_end s ≡ some n
    → find header_end (newline ++ s) ≡ some (n + 2)
unfolding find starts_with
break_then s n h e = rw (h, e) (ap some (omega arith))

-- The blank line is found behind the last header, not before.
blank_line_at :
    (m : Entries) (body : Bytes)
    → IsClean m
    → (n : ℕ) × (find header_end (newline ++ (render_headers m ++ body)) ≡ some n)
      × (n + 2 ≡ length (render_headers m))
unfolding find starts_with
blank_line_at [] body c = (0, at_once body, omega arith)
blank_line_at ((k, v) ∷ m) body c =
    let line = k ++ (codes ": " ++ v) in
    let tail = render_headers m ++ body in
    let (n, e, l) = blank_line_at m body c.3 in
    let no_break : Lacks 13 line =
      Lacks-append 13 k (codes ": " ++ v) c.1 ((λ q. cc), ((λ q. cc), c.2)) in
    let skip : find header_end (line ++ (newline ++ tail)) ≡ some (n + length line) =
      find_skip 13 (10 ∷ 13 ∷ 10 ∷ []) line (newline ++ tail) no_break ∙ rw e in
    let starts : starts_with newline (line ++ (newline ++ tail)) ≡ false =
      rw (append_assoc k (codes ": " ++ v) (newline ++ tail))
        (line_starts k (32 ∷ (v ++ (newline ++ tail))) c.1) in
    let whole = append_assoc line (newline ++ render_headers m) body in
    (
      n + length line + 2,
      ap (λ t. find header_end (newline ++ t)) whole
          ∙ break_then (line ++ (newline ++ tail)) (n + length line) starts skip,
      omega (arith, length-append line (newline ++ render_headers m)),
    )

-- The first blank line of a response ends its head.
pub find-render :
    (r : HttpResponse) (body : Bytes)
    → IsClean r.headers
    → (n : ℕ) × (find header_end (render r ++ body) ≡ some n) × (n + 4 ≡ length (render r))
find-render r body c =
    let line = get_response_type r.type ++ (codes " " ++ get_response_code r.code) in
    let (n, e, l) = blank_line_at r.headers body c in
    let no_break : Lacks 13 line =
      Lacks-append 13 (get_response_type r.type) (codes " " ++ get_response_code r.code)
        (type-Lacks r.type) ((λ q. cc), code-Lacks r.code) in
    (
      n + length line,
      ap (find header_end) (append_assoc line (newline ++ render_headers r.headers) body)
          ∙ find_skip 13 (10 ∷ 13 ∷ 10 ∷ []) line (newline ++ (render_headers r.headers ++ body))
              no_break
          ∙ rw e,
      omega (arith, length-append line (newline ++ render_headers r.headers)),
    )

-- The head ends where the renderer's text ends.
pub head_length-render :
    (r : HttpResponse) (body : Bytes)
    → IsClean r.headers
    → length (render r) < 2 ^ 32
    → head_length (render r ++ body) ≡ length (render r)
unfolding head_length
head_length-render r body c b =
    let (n, e, l) = find-render r body c in rw (e, head_length) (omega arith)
