-- ===== src/Network/MessageResult/Offset.antt =====
-- Where the content of a result begins.
use myblob.Base.{
  ℕ, ◌≤◌, ◌<◌, ◌≡◌, ap, ◌∙◌, some, ◌++◌, arith, length, drop, drop-append, length-append,
  length-take, ltb, ◌==◌, true, false, Option-cases, inl, inr,
}
use myblob.Base.Text.{Bytes, find}
use myblob.Utils.DataVector.{DataVector}
use myblob.Network.HttpResponse.{HttpResponse}
use myblob.Network.HttpResponse.RoundTrip.{render, IsClean}
use myblob.Network.HttpHelper.{header_end}
use myblob.Network.HttpHelper.Head.{find-render}
use myblob.Network.MessageResult.{MessageResult, text_of, get_result, get_offset, offset_at}

text_of-length : (v : DataVector ℕ) → length (text_of v) ≤ v.size
text_of-length v = elim (Option-cases v.memory) [
  | inl e ↦ rw e (omega arith)
  | inr (cells, e) ↦ rw e (omega (arith, length-take v.size cells))
]

-- Where the received text is the rendered head of a response, with clean headers, and a body,
-- the head longer than four bytes, what `getResult` returns is, from `getOffset` on, the body.
pub get_result-get_offset :
    (r : HttpResponse) (body : Bytes) (v : DataVector ℕ) (m : MessageResult)
    → m.data_vector ≡ some v
    → IsClean r.headers
    → text_of v ≡ render r ++ body
    → 4 < length (render r)
    → drop (get_offset m) (get_result m) ≡ body
unfolding get_offset get_result
get_result-get_offset r body v m h c e l =
    let (n, f, s) = find-render r body c in
    let long : 4 < v.size =
      omega (arith, text_of-length v, ap length e, length-append (render r) body) in
    let test : ltb 4 v.size ≡ true = ground arith in
    let full : (v.size == 0) ≡ false = ground arith in
    rw (h, test, full)
      (ap (λ t. drop (offset_at (find header_end t) m.response) t) e
        ∙ ap (λ o. drop (offset_at o m.response) (render r ++ body)) f
        ∙ ap (λ k. drop k (render r ++ body)) s
        ∙ drop-append (render r) body)
