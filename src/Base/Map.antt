-- ===== src/Base/Map.antt =====
-- `std::map<std::string, std::string>`: the entries in the order of their keys, each key once.
use Prim.Native.Nat.{compare, Ordering}
use mathlib.Core.Path.{◌≡◌, refl}
use mathlib.Core.Option.{Option, none, some}
use mathlib.Core.List.{List, [], ◌∷◌, ◌++◌}
use native.Mathlib.Omega.{arith}
use myblob.Base.Tests.{if◌then◌else◌}
use myblob.Base.Text.{Bytes, eq_bytes}

abbrev pub Entries : Type 0
Entries = List (Bytes × Bytes)

-- The order of `std::string`.
unfoldable pub compare_bytes : Bytes → Bytes → Ordering
compare_bytes [] [] = Ordering.eq
compare_bytes [] (d ∷ t) = Ordering.lt
compare_bytes (c ∷ s) [] = Ordering.gt
compare_bytes (c ∷ s) (d ∷ t) = elim (compare c d) [
  | Ordering.lt ↦ Ordering.lt
  | Ordering.gt ↦ Ordering.gt
  | Ordering.eq ↦ compare_bytes s t
]

-- `m.emplace(k, v)`: an entry that is there stays.
unfoldable pub emplace : Bytes → Bytes → Entries → Entries
unfolding compare_bytes
emplace k v [] = (k, v) ∷ []
emplace k v ((j, w) ∷ m) = elim (compare_bytes k j) [
  | Ordering.lt ↦ (k, v) ∷ (j, w) ∷ m
  | Ordering.eq ↦ (j, w) ∷ m
  | Ordering.gt ↦ (j, w) ∷ emplace k v m
]

-- `m[k] = v`: an entry that is there is replaced.
unfoldable pub assign : Bytes → Bytes → Entries → Entries
unfolding compare_bytes
assign k v [] = (k, v) ∷ []
assign k v ((j, w) ∷ m) = elim (compare_bytes k j) [
  | Ordering.lt ↦ (k, v) ∷ (j, w) ∷ m
  | Ordering.eq ↦ (j, v) ∷ m
  | Ordering.gt ↦ (j, w) ∷ assign k v m
]

unfoldable pub lookup : Bytes → Entries → Option Bytes
lookup k [] = none
lookup k ((j, w) ∷ m) = if eq_bytes k j then some w else lookup k m

-- Every key of the map stands before `k`.
abbrev pub AllBefore : Entries → Bytes → Type 0
AllBefore [] k = Unit
AllBefore ((j, w) ∷ m) k = (compare_bytes k j ≡ Ordering.gt) × AllBefore m k

-- The keys of `rest` ascend, and all stand behind those of `front`.
abbrev pub Ascending : Entries → Entries → Type 0
Ascending front [] = Unit
Ascending front ((k, v) ∷ rest) = AllBefore front k × Ascending (front ++ (k, v) ∷ []) rest

-- A map holds its entries in ascending order.
abbrev pub IsMap : Entries → Type 0
IsMap m = Ascending [] m

-- An entry whose key stands behind all others goes to the end.
pub emplace_last : (k v : Bytes) (m : Entries) → AllBefore m k → emplace k v m ≡ m ++ (k, v) ∷ []
unfolding emplace
emplace_last k v [] h = refl
emplace_last k v ((j, w) ∷ m) h = ground (arith, emplace_last k v m h.1)

pub assign_last : (k v : Bytes) (m : Entries) → AllBefore m k → assign k v m ≡ m ++ (k, v) ∷ []
unfolding assign
assign_last k v [] h = refl
assign_last k v ((j, w) ∷ m) h = ground (arith, assign_last k v m h.1)
