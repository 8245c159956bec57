-- ===== src/Network/HttpRequest/Queries.antt =====
-- The path and the queries of a request are read back.
use myblob.Base.{
  ℕ, zero, suc, ◌+◌, ◌-◌, ◌≤◌, ◌<◌, ◌≡◌, ◌≢◌, refl, sym, ap, ◌∙◌, [], ◌∷◌, ◌++◌, arith, drop,
  length, length-append, take-append, drop-append, append_assoc,
}
use myblob.Base.Text.{
  Bytes, Lacks, Lacks-append, find_byte-append, find_byte-Lacks, drop_behind, drop_past,
}
use myblob.Base.Map.{Entries, assign, assign_last, Ascending, IsMap}
use myblob.Network.HttpRequest.{HttpRequest, write_queries, write_target, read_queries, read_target}

-- No key holds an equals sign, and no value an ampersand.
abbrev pub CleanQueries : Entries → Type 0
CleanQueries [] = Unit
CleanQueries ((k, v) ∷ m) = Lacks 61 k × Lacks 38 v × CleanQueries m

-- No key and no value holds the byte.
abbrev pub AllLack : ℕ → Entries → Type 0
AllLack c [] = Unit
AllLack c ((k, v) ∷ m) = Lacks c k × Lacks c v × AllLack c m

last_query :
    (f : ℕ) (k v : Bytes) (m : Entries)
    → Lacks 61 k
    → Lacks 38 v
    → read_queries (suc f) (k ++ 61 ∷ v) m ≡ assign k v m
unfolding read_queries
last_query f k v m h l =
    rw
      (
        find_byte-append 61 k v h,
        drop-append k (61 ∷ v),
        find_byte-Lacks 38 (61 ∷ v) ((λ q. cc), l),
        take-append k (61 ∷ v),
        drop_behind k 61 v,
        read_queries,
      )
      refl

next_query :
    (f : ℕ) (k v rest : Bytes) (m : Entries)
    → Lacks 61 k
    → Lacks 38 v
    → read_queries (suc f) (k ++ 61 ∷ (v ++ 38 ∷ rest)) m ≡ read_queries f rest (assign k v m)
unfolding read_queries
next_query f k v rest m h l =
    let amp : length (61 ∷ v) - 1 ≡ length v = omega arith in
    let behind : drop (length k + length (61 ∷ v) + 1) (k ++ ((61 ∷ v) ++ 38 ∷ rest)) ≡ rest =
      ap (λ t. drop (length k + length (61 ∷ v) + 1) (k ++ t))
        (sym (append_assoc (61 ∷ v) (38 ∷ []) rest))
      ∙ drop_past k ((61 ∷ v) ++ 38 ∷ []) rest (length k + length (61 ∷ v) + 1)
          (omega (arith, length-append v (38 ∷ []))) in
    rw
      (
        find_byte-append 61 k (v ++ 38 ∷ rest) h,
        drop-append k (61 ∷ (v ++ 38 ∷ rest)),
        find_byte-append 38 (61 ∷ v) rest ((λ q. cc), l),
        take-append k (61 ∷ (v ++ 38 ∷ rest)),
        drop_behind k 61 (v ++ 38 ∷ rest),
        amp,
        take-append v (38 ∷ rest),
        read_queries,
      )
      (ap (λ t. read_queries f t (assign k v m)) behind)

read_queries-write_queries :
    (f : ℕ) (m front : Entries)
    → length m ≤ f
    → 0 < length m
    → Ascending front m
    → CleanQueries m
    → read_queries f (write_queries m) front ≡ front ++ m
unfolding write_queries
read_queries-write_queries zero m front h p a c = absurd (omega arith)
read_queries-write_queries (suc f) [] front h p a c = absurd (omega arith)
read_queries-write_queries (suc f) ((k, v) ∷ []) front h p a c =
    last_query f k v front c.0 c.1 ∙ assign_last k v front a.0
read_queries-write_queries (suc f) ((k, v) ∷ q ∷ m) front h p a c =
    next_query f k v (write_queries (q ∷ m)) front c.0 c.1
    ∙ ap (read_queries f (write_queries (q ∷ m))) (assign_last k v front a.0)
    ∙ read_queries-write_queries f (q ∷ m) (front ++ (k, v) ∷ []) (omega arith) (omega arith) a.1
        c.2
    ∙ append_assoc front ((k, v) ∷ []) (q ∷ m)

length-write_queries : (m : Entries) → length m ≤ length (write_queries m)
unfolding write_queries
length-write_queries [] = omega arith
length-write_queries ((k, v) ∷ []) = omega (arith, length-append k (61 ∷ v))
length-write_queries ((k, v) ∷ q ∷ m) = omega (
  arith,
  length-append k (61 ∷ (v ++ 38 ∷ write_queries (q ∷ m))),
  length-append v (38 ∷ write_queries (q ∷ m)),
  length-write_queries (q ∷ m),
)

write_queries-Lacks :
    (b : ℕ) (m : Entries) → b ≢ 61 → b ≢ 38 → AllLack b m → Lacks b (write_queries m)
unfolding write_queries
write_queries-Lacks b [] e a h = tt
write_queries-Lacks b ((k, v) ∷ []) e a h = Lacks-append b k (61 ∷ v) h.0 (e, h.1)
write_queries-Lacks b ((k, v) ∷ q ∷ m) e a h =
    Lacks-append b k _ h.0 (e, Lacks-append b v _ h.1 (a, write_queries-Lacks b (q ∷ m) e a h.2))

pub write_target-Lacks :
    (b : ℕ) (path : Bytes) (m : Entries)
    → b ≢ 61
    → b ≢ 38
    → b ≢ 63
    → Lacks b path
    → AllLack b m
    → Lacks b (write_target path m)
write_target-Lacks b path [] e a n h k = h
write_target-Lacks b path (q ∷ m) e a n h k =
    Lacks-append b path _ h (n, write_queries-Lacks b (q ∷ m) e a k)

pub read_target-write_target :
    (path : Bytes) (m : Entries) (r : HttpRequest)
    → r.queries ≡ []
    → Lacks 63 path
    → IsMap m
    → CleanQueries m
    → read_target (write_target path m) r ≡ record r { path = path; queries = m }
unfolding read_target
read_target-write_target path [] r e p a c =
    rw (find_byte-Lacks 63 path p, read_target) (ap (λ q. record r { path = path; queries = q }) e)
read_target-write_target path (q ∷ m) r e p a c =
    rw
      (
        find_byte-append 63 path (write_queries (q ∷ m)) p,
        take-append path (63 ∷ write_queries (q ∷ m)),
        drop_behind path 63 (write_queries (q ∷ m)),
        read_target,
      )
      (ap (λ q. record r { path = path; queries = q })
        (ap (read_queries (length (write_queries (q ∷ m))) (write_queries (q ∷ m))) e
          ∙ read_queries-write_queries (length (write_queries (q ∷ m))) (q ∷ m) []
              (length-write_queries (q ∷ m)) (omega arith) a c))
