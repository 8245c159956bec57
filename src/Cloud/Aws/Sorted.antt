-- ===== src/Cloud/Aws/Sorted.antt =====
-- Which headers are signed, and in which order: `encodeCanonicalRequest` in
-- src/cloud/aws_signer.cpp.
use Prim.Native.Nat.{Ordering}
use mathlib.Core.Path.{subst}
use myblob.Base.{
  ◌≡◌, refl, sym, ap, ◌∙◌, inl, inr, Bool, true, false, Bool-cases, Option, none, some, [], ◌∷◌,
  if◌then◌else◌, arith,
}
use myblob.Base.Text.{Bytes, eq_bytes, eq_bytes_iff}
use myblob.Base.Map.{Entries, emplace, compare_bytes, lookup}
use myblob.Network.HttpRequest.{HttpRequest}
use myblob.Cloud.Aws.Signer.{
  Hashes, StringToSign, add_payload, lower, sort_headers, write_keys, canonical_text,
  encode_canonical_request,
}
use myblob.Cloud.Aws.Text.{compare_bytes-eq}

-- Each key stands before the next.
unfoldable pub IsSorted : Entries → Type 0
IsSorted [] = Unit
IsSorted (x ∷ []) = Unit
IsSorted (x ∷ y ∷ m) = (compare_bytes x.0 y.0 ≡ Ordering.lt) × IsSorted (y ∷ m)

-- The key stands before the first of these.
unfoldable Ahead : Bytes → Entries → Type 0
Ahead k [] = Unit
Ahead k (y ∷ m) = compare_bytes k y.0 ≡ Ordering.lt

compare_bytes-turn :
    (k j : Bytes) → compare_bytes k j ≡ Ordering.gt → compare_bytes j k ≡ Ordering.lt
unfolding compare_bytes
compare_bytes-turn [] [] h = absurd (grind arith)
compare_bytes-turn [] (d ∷ t) h = absurd (grind arith)
compare_bytes-turn (c ∷ s) [] h = refl
compare_bytes-turn (c ∷ s) (d ∷ t) h = ground (arith, compare_bytes-turn s t)

behind : (x : Bytes × Bytes) (m : Entries) → Ahead x.0 m → IsSorted m → IsSorted (x ∷ m)
unfolding IsSorted Ahead
behind x [] a s = tt
behind x (y ∷ m) a s = (a, s)

tail_sorted : (x : Bytes × Bytes) (m : Entries) → IsSorted (x ∷ m) → Ahead x.0 m × IsSorted m
unfolding IsSorted Ahead
tail_sorted x [] s = (tt, tt)
tail_sorted x (y ∷ m) s = s

choose_lem :
    (P : Entries → Type 0) (o : Ordering) {a b c : Entries}
    → (o ≡ Ordering.lt → P a)
    → (o ≡ Ordering.eq → P b)
    → (o ≡ Ordering.gt → P c)
    → P (elim o [ Ordering.lt ↦ a | Ordering.eq ↦ b | Ordering.gt ↦ c ])
choose_lem P Ordering.lt p q r = p refl
choose_lem P Ordering.eq p q r = q refl
choose_lem P Ordering.gt p q r = r refl

Ahead-emplace :
    (i k v : Bytes) (m : Entries)
    → compare_bytes i k ≡ Ordering.lt
    → Ahead i m
    → Ahead i (emplace k v m)
unfolding emplace Ahead
Ahead-emplace i k v [] h a = h
Ahead-emplace i k v ((j, w) ∷ m) h a =
    choose_lem (Ahead i) (compare_bytes k j) (λ e. h) (λ e. a) (λ e. a)

emplace-IsSorted : (k v : Bytes) (m : Entries) → IsSorted m → IsSorted (emplace k v m)
unfolding emplace Ahead
emplace-IsSorted k v [] s = behind (k, v) [] tt s
emplace-IsSorted k v ((j, w) ∷ m) s =
    let t = tail_sorted (j, w) m s in
    choose_lem IsSorted (compare_bytes k j) (λ e. behind (k, v) ((j, w) ∷ m) e s) (λ e. s)
      (λ e.
        behind (j, w) (emplace k v m) (Ahead-emplace j k v m (compare_bytes-turn k j e) t.0)
          (emplace-IsSorted k v m t.1))

sort_headers-IsSorted : (m sorted : Entries) → IsSorted sorted → IsSorted (sort_headers m sorted)
unfolding sort_headers
sort_headers-IsSorted [] sorted s = s
sort_headers-IsSorted ((k, v) ∷ m) sorted s =
    sort_headers-IsSorted m (emplace (lower k) v sorted) (emplace-IsSorted (lower k) v sorted s)

abbrev or_else : Option Bytes → Option Bytes → Option Bytes
or_else none o = o
or_else (some v) o = some v

-- The value of the first header whose key in lower case is `key`.
unfoldable pub first_value : Bytes → Entries → Option Bytes
first_value key [] = none
first_value key ((k, v) ∷ m) = if eq_bytes key (lower k) then some v else first_value key m

compare_bytes-less : (k j : Bytes) → compare_bytes k j ≡ Ordering.lt → eq_bytes k j ≡ false
unfolding compare_bytes eq_bytes
compare_bytes-less [] [] h = absurd (grind arith)
compare_bytes-less [] (d ∷ t) h = refl
compare_bytes-less (c ∷ s) [] h = refl
compare_bytes-less (c ∷ s) (d ∷ t) h = ground (arith, compare_bytes-less s t)

compare_bytes-through :
    (a b c : Bytes)
    → compare_bytes a b ≡ Ordering.lt
    → compare_bytes b c ≡ Ordering.lt
    → compare_bytes a c ≡ Ordering.lt
unfolding compare_bytes
compare_bytes-through [] [] c h k = absurd (grind arith)
compare_bytes-through [] (y ∷ b) [] h k = absurd (grind arith)
compare_bytes-through [] (y ∷ b) (z ∷ c) h k = refl
compare_bytes-through (x ∷ a) [] c h k = absurd (grind arith)
compare_bytes-through (x ∷ a) (y ∷ b) [] h k = absurd (grind arith)
compare_bytes-through (x ∷ a) (y ∷ b) (z ∷ c) h k = ground (arith, compare_bytes-through a b c)

Ahead-through :
    (i k : Bytes) (m : Entries) → compare_bytes i k ≡ Ordering.lt → Ahead k m → Ahead i m
unfolding Ahead
Ahead-through i k [] h a = tt
Ahead-through i k ((j, w) ∷ m) h a = compare_bytes-through i k j h a

-- A key before the first one has no entry.
lookup-Ahead : (k : Bytes) (m : Entries) → Ahead k m → IsSorted m → lookup k m ≡ none
unfolding lookup Ahead
lookup-Ahead k [] a s = refl
lookup-Ahead k ((j, w) ∷ m) a s =
    let t = tail_sorted (j, w) m s in
    rw (compare_bytes-less k j a) (lookup-Ahead k m (Ahead-through k j m a t.0) t.1)

-- What is found after a new entry.
abbrev Gives : Bytes → Bytes → Bytes → Entries → Entries → Type 0
Gives key k v m n = lookup key n ≡ or_else (lookup key m) (if eq_bytes key k then some v else none)

or_else-none : (o : Option Bytes) → o ≡ or_else o none
or_else-none none = refl
or_else-none (some v) = refl

in_front : (key k v : Bytes) (m : Entries) → Ahead k m → IsSorted m → Gives key k v m ((k, v) ∷ m)
unfolding lookup
in_front key k v m a s = elim (Bool-cases (eq_bytes key k)) [
  | inl e ↦
      let q = (eq_bytes_iff key k).0 e in
      let n = lookup-Ahead key m (subst (λ x. Ahead x m) (sym q) a) s in rw (e, n) refl
  | inr e ↦ rw e (or_else-none (lookup key m))
]

kept :
    (key k v j w : Bytes) (m : Entries)
    → compare_bytes k j ≡ Ordering.eq
    → Gives key k v ((j, w) ∷ m) ((j, w) ∷ m)
unfolding lookup
kept key k v j w m h = elim (Bool-cases (eq_bytes key k)) [
  | inl e ↦
      let q = (eq_bytes_iff key k).0 e in
      let r : eq_bytes key j ≡ true =
        subst (λ x. eq_bytes x j ≡ true) (sym q) (compare_bytes-eq k j h) in
      rw (e, r) refl
  | inr e ↦ rw e (or_else-none (if eq_bytes key j then some w else lookup key m))
]

farther :
    (key k v j w : Bytes) (m n : Entries)
    → Gives key k v m n
    → Gives key k v ((j, w) ∷ m) ((j, w) ∷ n)
unfolding lookup
farther key k v j w m n h = elim (Bool-cases (eq_bytes key j)) [
  | inl e ↦ rw e refl
  | inr e ↦ rw e h
]

emplace-Gives : (key k v : Bytes) (m : Entries) → IsSorted m → Gives key k v m (emplace k v m)
unfolding emplace Ahead
emplace-Gives key k v [] s = in_front key k v [] tt s
emplace-Gives key k v ((j, w) ∷ m) s =
    choose_lem (Gives key k v ((j, w) ∷ m)) (compare_bytes k j)
      (λ e. in_front key k v ((j, w) ∷ m) e s) (λ e. kept key k v j w m e)
      (λ e.
        farther key k v j w m (emplace k v m) (emplace-Gives key k v m (tail_sorted (j, w) m s).1))

or_else_assoc :
    (o q : Option Bytes) (b : Bool) (v : Bytes)
    → or_else (or_else o (if b then some v else none)) q ≡ or_else o (if b then some v else q)
or_else_assoc none q true v = refl
or_else_assoc none q false v = refl
or_else_assoc (some w) q b v = refl

sort_headers-lookup :
    (key : Bytes) (m sorted : Entries)
    → IsSorted sorted
    → lookup key (sort_headers m sorted) ≡ or_else (lookup key sorted) (first_value key m)
unfolding sort_headers first_value
sort_headers-lookup key [] sorted s = or_else-none (lookup key sorted)
sort_headers-lookup key ((k, v) ∷ m) sorted s =
    sort_headers-lookup key m (emplace (lower k) v sorted) (emplace-IsSorted (lower k) v sorted s)
    ∙ ap (λ o. or_else o (first_value key m)) (emplace-Gives key (lower k) v sorted s)
    ∙ or_else_assoc (lookup key sorted) (first_value key m) (eq_bytes key (lower k)) v

-- What is signed of a request: the lines of `sorted`, whose keys ascend strictly, and which holds
-- exactly the keys of the request's headers in lower case, each with the value of the first header
-- that has it.
pub record Signs (hashes : Hashes) (r : HttpRequest) (s : StringToSign) (sorted : Entries)
    : Type 0 where
  pub in_order : IsSorted sorted
  pub values : (key : Bytes) → lookup key sorted ≡ first_value key r.headers
  pub named : s.signed_headers ≡ write_keys sorted
  pub hashed : s.request_sha ≡ hashes.sha256 (canonical_text hashes r s.payload_hash sorted)

-- The headers that are signed are those of the request that is left, the ones that say something of
-- the body included: their keys in lower case, in strictly ascending order, each with the value of
-- the first header of that key and no other key. These keys are what is listed as signed, and the
-- hash is that of the text with these lines.
pub encode_canonical_request-Signs :
    (hashes : Hashes) (r : HttpRequest) (s : StringToSign) (body : Bytes)
    → (sorted : Entries) × Signs hashes
        (encode_canonical_request hashes r s body).0
        (encode_canonical_request hashes r s body).1
        sorted
unfolding encode_canonical_request IsSorted lookup
encode_canonical_request-Signs hashes r s body =
    let headers = (add_payload hashes r body).1.headers in
    (
      sort_headers headers [],
      record {
        in_order = sort_headers-IsSorted headers [] tt;
        values = λ key. sort_headers-lookup key headers [] tt;
        named = refl;
        hashed = refl;
      },
    )
