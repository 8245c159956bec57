-- ===== src/Network/ConnectionManager.antt =====
-- The connection pool: include/network/connection_manager.hpp and
-- src/network/connection_mannager.cpp. The options that `applyTCPSettings` sets, the choice of the
-- socket class and the TLS context are left out.
pub mod Slots
pub mod Bounds
pub mod Lost
pub mod Counted
pub mod Tests
use Prim.Native.Nat.{◌/◌, ◌%◌}
use myblob.Base.{
  ℕ, zero, suc, ◌+◌, ◌-◌, ◌≤◌, ◌<◌, ◌≡◌, refl, Bool, true, false, not, ◌&&◌, ◌||◌, Option, none,
  some, List, [], ◌∷◌, ◌++◌, arith, ltb, ◌==◌, if◌then◌else◌, length,
}
use myblob.Base.Text.{Bytes, codes, eq_bytes}
use myblob.Network.Connection.{
  Connection, ConnectionState, Answers, make, mark_used, mark_idle, is_idle_too_long, connect,
  disconnect, is_idle, is_in_use, is_closed,
}

-- `idle` is the hash table, keys with their connections; a slot of `pool` is `none` for a null
-- pointer.
pub record Manager : Type 0 where
  pub max_connections : ℕ
  pub max_idle_seconds : ℕ
  pub stop : Bool
  pub idle : List (Bytes × Connection)
  pub pool : List (Option Connection)

unfoldable pub init : ℕ → ℕ → Manager
init max_connections max_idle_seconds = record {
  max_connections = max_connections;
  max_idle_seconds = max_idle_seconds;
  stop = false;
  idle = [];
  pool = [];
}

-- `std::to_string`, on fuel; a number has at most as many digits as it is large, or one.
abbrev pub digits : ℕ → ℕ → Bytes
digits zero n = []
digits (suc fuel) n =
    let rest = digits fuel (n / 10) in (if ltb n 10 then [] else rest) ++ (48 + n % 10) ∷ []

abbrev pub to_string : ℕ → Bytes
to_string n = digits (suc n) n

unfoldable pub make_key : Bytes → ℕ → Bool → Bytes
make_key host port use_tls =
    host ++ (codes ":" ++ (to_string port ++ (if use_tls then codes ":tls" else [])))

-- `createNewConnection`: null where the connection cannot be made.
unfoldable pub create_new_connection : Answers → Bytes → ℕ → Bool → Option Connection
create_new_connection a host port use_tls =
    let (b, c, calls) = connect a (make host port use_tls a.now) in if b then some c else none

-- `idle_.find(key)`, and the table without the entry that is found.
unfoldable pub take_idle :
    Bytes → List (Bytes × Connection) → Option (Connection × List (Bytes × Connection))
take_idle key [] = none
take_idle key ((k, c) ∷ idle) =
    let rest = take_idle key idle in
    if eq_bytes key k
    then some (c, idle)
    else elim rest [ none ↦ none | some r ↦ some (r.0, (k, c) ∷ r.1) ]

abbrev pub same_bool : Bool → Bool → Bool
same_bool true b = b
same_bool false b = not b

abbrev pub is_reusable : Bytes → ℕ → Bool → Connection → Bool
is_reusable host port use_tls c =
    is_idle c.state && (eq_bytes c.host host && ((c.port == port) && same_bool c.use_tls use_tls))

-- The first slot with a connection that fits, which is left null.
unfoldable pub take_slot :
    Bytes → ℕ → Bool → List (Option Connection) → Option (Connection × List (Option Connection))
take_slot host port use_tls [] = none
take_slot host port use_tls (none ∷ pool) = elim (take_slot host port use_tls pool) [
  | none ↦ none
  | some r ↦ some (r.0, none ∷ r.1)
]
take_slot host port use_tls (some c ∷ pool) =
    let rest = take_slot host port use_tls pool in
    if is_reusable host port use_tls c
    then some (c, none ∷ pool)
    else elim rest [ none ↦ none | some r ↦ some (r.0, some c ∷ r.1) ]

-- A new connection, where the pool has room: its slot is null as long as it is in use.
unfoldable pub add_connection : Answers → Bytes → ℕ → Bool → Manager → Option Connection × Manager
add_connection a host port use_tls m = elim (create_new_connection a host port use_tls) [
  | none ↦ (none, m)
  | some c ↦ (some (mark_used a.now c), record m { pool = m.pool ++ none ∷ [] })
]

-- The slots that the clean-up keeps.
unfoldable pub without_closed : List (Option Connection) → List (Option Connection)
without_closed [] = []
without_closed (none ∷ pool) = none ∷ without_closed pool
without_closed (some c ∷ pool) =
    let rest = without_closed pool in if is_closed c.state then rest else some c ∷ rest

-- What `getConnection` does where no connection can be used again.
unfoldable pub get_new : Answers → Bytes → ℕ → Bool → Manager → Option Connection × Manager
get_new a host port use_tls m =
    if ltb (length m.pool) m.max_connections
    then add_connection a host port use_tls m
    else let cleaned = record m { pool = without_closed m.pool } in
      if ltb (length cleaned.pool) m.max_connections
      then add_connection a host port use_tls cleaned
      else (none, cleaned)

unfoldable pub get_connection : Answers → Bytes → ℕ → Bool → Manager → Option Connection × Manager
get_connection a host port use_tls m =
    if m.stop then (none, m) else elim (take_idle (make_key host port use_tls) m.idle) [
      | some r ↦ (some (mark_used a.now r.0), record m { idle = r.1 })
      | none ↦ elim (take_slot host port use_tls m.pool) [
        | some r ↦ (some (mark_used a.now r.0), record m { pool = r.1 })
        | none ↦ get_new a host port use_tls m
      ]
    ]

-- The pool without its first null slot.
unfoldable pub drop_null : List (Option Connection) → List (Option Connection)
drop_null [] = []
drop_null (none ∷ pool) = pool
drop_null (some c ∷ pool) = some c ∷ drop_null pool

-- The connection in the first null slot; where there is none it is discarded.
unfoldable pub fill_null : Connection → List (Option Connection) → List (Option Connection)
fill_null c [] = []
fill_null c (none ∷ pool) = some c ∷ pool
fill_null c (some d ∷ pool) = some d ∷ fill_null c pool

unfoldable pub return_connection : Option Connection → Manager → Manager
return_connection none m = m
return_connection (some c) m =
    if is_closed c.state || not c.connected
    then record m { pool = drop_null m.pool }
    else let key = make_key c.host c.port c.use_tls in
      elim (take_idle key m.idle) [
        | none ↦ record m { idle = (key, mark_idle c) ∷ m.idle }
        | some r ↦ record m { pool = fill_null r.0 m.pool; idle = (key, mark_idle c) ∷ r.1 }
      ]

-- The entries of the table that are not idle for too long.
unfoldable pub keep_fresh : ℕ → ℕ → List (Bytes × Connection) → List (Bytes × Connection)
keep_fresh now limit [] = []
keep_fresh now limit ((k, c) ∷ idle) =
    let rest = keep_fresh now limit idle in
    if is_idle_too_long now limit c then rest else (k, c) ∷ rest

-- The slots, those null whose connection was idle for too long.
unfoldable pub reset_old : ℕ → ℕ → List (Option Connection) → List (Option Connection)
reset_old now limit [] = []
reset_old now limit (none ∷ pool) = none ∷ reset_old now limit pool
reset_old now limit (some c ∷ pool) =
    let rest = reset_old now limit pool in
    (if is_idle c.state && is_idle_too_long now limit c then none else some c) ∷ rest

unfoldable pub close_idle_connections : ℕ → Manager → Manager
close_idle_connections now m = record m {
  idle = keep_fresh now m.max_idle_seconds m.idle;
  pool = reset_old now m.max_idle_seconds m.pool;
}

unfoldable pub close_all : Manager → Manager
close_all m = record m { stop = true; idle = []; pool = [] }

pub record Stats : Type 0 where
  pub total_connections : ℕ
  pub idle_connections : ℕ
  pub in_use_connections : ℕ
  pub max_connections : ℕ

unfoldable pub count_slots : List (Option Connection) → Stats → Stats
count_slots [] stats = stats
count_slots (none ∷ pool) stats = count_slots pool stats
count_slots (some c ∷ pool) stats = count_slots pool (record stats {
  total_connections = stats.total_connections + 1;
  idle_connections = if is_idle c.state then stats.idle_connections + 1 else stats.idle_connections;
  in_use_connections =
      if is_in_use c.state then stats.in_use_connections + 1 else stats.in_use_connections;
})

unfoldable pub get_stats : Manager → Stats
get_stats m = count_slots m.pool (record {
  total_connections = length m.idle;
  idle_connections = length m.idle;
  in_use_connections = 0;
  max_connections = m.max_connections;
})
