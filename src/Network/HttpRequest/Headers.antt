-- ===== src/Network/HttpRequest/Headers.antt =====
-- The headers of a request are read back.
use myblob.Base.{
  ℕ, zero, suc, ◌+◌, ◌<◌, ◌≡◌, ◌≢◌, refl, sym, ap, ◌∙◌, false, [], ◌∷◌, ◌++◌, ◌==◌, arith, length,
  length-append, take-append, append_assoc, append-nil,
}
use myblob.Base.Text.{
  Bytes, Lacks, Lacks-append, find-append, find_byte-append, drop_behind, drop_past,
}
use myblob.Base.Map.{Entries, assign, assign_last, Ascending}
use myblob.Network.HttpRequest.{newline, write_headers, skip_blanks, read_header, read_headers}

-- No value of a header starts with a blank.
abbrev pub NoBlank : Bytes → Type 0
NoBlank [] = Unit
NoBlank (c ∷ s) = c ≢ 32

-- No key holds a colon or a carriage return, and no value a carriage return or a blank in front.
abbrev pub CleanHeaders : Entries → Type 0
CleanHeaders [] = Unit
CleanHeaders ((k, v) ∷ m) = Lacks 58 k × Lacks 13 k × Lacks 13 v × NoBlank v × CleanHeaders m

skip_blanks-NoBlank : (v : Bytes) → NoBlank v → skip_blanks (32 ∷ v) ≡ v
unfolding skip_blanks
skip_blanks-NoBlank [] h = refl
skip_blanks-NoBlank (c ∷ v) h = ground arith

read_header_parses :
    (k v : Bytes) (m : Entries)
    → Lacks 58 k
    → NoBlank v
    → read_header (k ++ 58 ∷ 32 ∷ v) m ≡ assign k v m
unfolding read_header
read_header_parses k v m h b =
    rw
      (
        find_byte-append 58 k (32 ∷ v) h,
        take-append k (58 ∷ 32 ∷ v),
        drop_behind k 58 (32 ∷ v),
        skip_blanks-NoBlank v b,
        read_header,
      )
      refl

header_step :
    (f : ℕ) (line rest : Bytes) (m : Entries)
    → Lacks 13 line
    → 0 < length line
    → read_headers (suc f) (line ++ (newline ++ rest)) m ≡ read_headers f rest (read_header line m)
unfolding read_headers
header_step f line rest m h l =
    let test : (length line == 0) ≡ false = ground arith in
    rw (find-append 13 (10 ∷ []) line rest h, test, read_headers)
      (simp
        (take-append line (newline ++ rest), drop_past line newline rest (length line + 2) refl))

pub read_headers-write_headers :
    (f : ℕ) (m front : Entries)
    → length m < f
    → Ascending front m
    → CleanHeaders m
    → read_headers f (write_headers m) front ≡ front ++ m
unfolding write_headers read_headers
read_headers-write_headers zero m front h a c = absurd (omega arith)
read_headers-write_headers (suc f) [] front h a c =
    rw (find-append 13 (10 ∷ []) [] [] tt, read_headers) (sym (append-nil front))
read_headers-write_headers (suc f) ((k, v) ∷ m) front h a c =
    let line = k ++ 58 ∷ 32 ∷ v in
    let no_break : Lacks 13 line =
      Lacks-append 13 k (58 ∷ 32 ∷ v) c.1 ((λ q. cc), ((λ q. cc), c.2)) in
    let filled : 0 < length line = omega (arith, length-append k (58 ∷ 32 ∷ v)) in
    header_step f line (write_headers m) front no_break filled
    ∙ ap (read_headers f (write_headers m))
        (read_header_parses k v front c.0 c.3 ∙ assign_last k v front a.0)
    ∙ read_headers-write_headers f m (front ++ (k, v) ∷ []) (omega arith) a.1 c.4
    ∙ append_assoc front ((k, v) ∷ []) m

pub length-write_headers : (m : Entries) → length m < length (write_headers m)
unfolding write_headers
length-write_headers [] = omega arith
length-write_headers ((k, v) ∷ m) =
    omega
      (arith, length-append (k ++ 58 ∷ 32 ∷ v) (newline ++ write_headers m), length-write_headers m)
