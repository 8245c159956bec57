-- ===== src/Network/HttpResponse/Fuel.antt =====
-- The fuel of the parser's loop: more than the length of the text changes nothing.
use myblob.Base.{
  ℕ, zero, suc, ◌+◌, ◌<◌, ◌≡◌, inl, inr, Bool, true, false, arith, length, length-drop, drop, take,
  ok, err, ◌>>=◌, Option-cases, if◌then◌else◌, ap,
}
use mathlib.Core.Path.{fun_ext}
use myblob.Base.Text.{Bytes, find, find-length, is_empty}
use myblob.Network.HttpResponse.{HttpResponse, Error, newline, read_lines, status_line, header_line}

pub read_lines_fuel :
    (f g : ℕ) (text : Bytes) (first : Bool) (r : HttpResponse)
    → length text < f
    → length text < g
    → read_lines f text first r ≡ read_lines g text first r
unfolding read_lines
read_lines_fuel zero g text first r h k = absurd (omega arith)
read_lines_fuel (suc f) zero text first r h k = absurd (omega arith)
read_lines_fuel (suc f) (suc g) text first r h k = elim (Option-cases (find newline text)) [
  | inl e ↦ rw (e, read_lines)
  | inr (pos, e) ↦
      let shorter : length (drop (pos + 2) text) < length text =
        omega (arith, find-length newline text pos e, length-drop (pos + 2) text) in
      rw (e, read_lines)
        (ap
          (λ next. elim (is_empty (take pos text)) [
            | true ↦ if first then err Error.missing_first_line else ok r
            | false ↦
                (if first then status_line (take pos text) r else header_line (take pos text) r)
                >>= next
          ])
          (fun_ext
            (λ r'. read_lines_fuel f g (drop (pos + 2) text) false r' (omega arith) (omega arith))))
]
