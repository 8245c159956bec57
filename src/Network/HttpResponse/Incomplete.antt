-- ===== src/Network/HttpResponse/Incomplete.antt =====
-- A head that has not arrived whole.
use myblob.Base.{
  ℕ, zero, suc, ◌+◌, ◌≡◌, ◌≢◌, refl, ap, ◌∙◌, inl, inr, Bool, true, false, none, some, [], ◌∷◌,
  ◌++◌, arith, length, drop, take, ok, >>=-returns, Option-cases, if◌then◌else◌,
}
use myblob.Base.Text.{
  Bytes, find, find-drop, find-starts_with, starts_with, starts_with-split, is_empty,
}
use myblob.Network.HttpResponse.{
  HttpResponse, newline, read_lines, status_line, header_line, deserialize,
}

abbrev blank_line : Bytes
blank_line = 13 ∷ 10 ∷ 13 ∷ 10 ∷ []

-- Neither a blank line, nor a line break at the very start.
abbrev pub HasNoEnd : Bytes → Type 0
HasNoEnd text = find blank_line (newline ++ text) ≡ none

drop-drop : (m n k : ℕ) (s : Bytes) → k ≡ m + n → drop n (drop m s) ≡ drop k s
drop-drop zero n k s e = ap (λ t. drop t s) (omega arith)
drop-drop (suc m) n zero s e = absurd (omega arith)
drop-drop (suc m) zero (suc k) [] e = refl
drop-drop (suc m) (suc n) (suc k) [] e = refl
drop-drop (suc m) n (suc k) (x ∷ s) e = drop-drop m n k s (omega arith)

-- The text from a line break on.
break_at :
    (text : Bytes) (pos : ℕ)
    → find newline text ≡ some pos
    → drop pos text ≡ newline ++ drop (pos + 2) text
break_at text pos e =
    starts_with-split newline (drop pos text) (find-starts_with newline text pos e)
    ∙ ap (λ t. newline ++ t) (drop-drop pos 2 (pos + 2) text refl)

rest-HasNoEnd :
    (text : Bytes) (pos : ℕ)
    → HasNoEnd text
    → find newline text ≡ some pos
    → HasNoEnd (drop (pos + 2) text)
rest-HasNoEnd text pos h e =
    rw (← break_at text pos e) (find-drop blank_line (newline ++ text) (suc (suc pos)) h)

at_start : (rest : Bytes) → find blank_line (newline ++ (newline ++ rest)) ≡ some 0
unfolding find starts_with
at_start rest = refl

first-HasNoEnd :
    (text : Bytes) (pos : ℕ)
    → HasNoEnd text
    → find newline text ≡ some pos
    → is_empty (take pos text) ≡ false
unfolding find
first-HasNoEnd text zero h e =
    let there : find blank_line (newline ++ text) ≡ some 0 =
      ap (λ t. find blank_line (newline ++ t)) (break_at text 0 e) ∙ at_start (drop 2 text) in
    cc
first-HasNoEnd [] (suc pos) h e = cc
first-HasNoEnd (x ∷ text) (suc pos) h e = refl

read_lines_fails :
    (f : ℕ) (text : Bytes) (first : Bool) (r s : HttpResponse)
    → HasNoEnd text
    → read_lines f text first r ≢ ok s
unfolding read_lines
read_lines_fails zero text first r s h k = cc
read_lines_fails (suc f) text first r s h k = elim (Option-cases (find newline text)) [
  | inl e ↦ cc (rw (e, read_lines) at k)
  | inr (pos, e) ↦
      let line = take pos text in
      let rest = drop (pos + 2) text in
      let (r', _, k') =
        >>=-returns (if first then status_line line r else header_line line r)
          (λ r'. read_lines f rest false r')
          (rw (e, first-HasNoEnd text pos h e, read_lines) at k) in
      read_lines_fails f rest false r' s (rest-HasNoEnd text pos h e) k'
]

-- A text with no blank line in it and no line break at its start, as when the end of the head has
-- not arrived, is parsed to no response: the parser throws.
pub deserialize_incomplete :
    (text : Bytes) (r : HttpResponse) → HasNoEnd text → deserialize text ≢ ok r
unfolding deserialize
deserialize_incomplete text r h = read_lines_fails (suc (length text)) text true _ r h
