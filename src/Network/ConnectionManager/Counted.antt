-- ===== src/Network/ConnectionManager/Counted.antt =====
-- What the statistics count.
use myblob.Base.{
  ℕ, ◌+◌, ◌≡◌, refl, sym, ◌∙◌, Bool, true, false, not, ◌&&◌, ◌||◌, Option, none, some, List, [],
  ◌∷◌, ◌++◌, arith, length, ltb, if_lem, Option-cases, inl, inr,
}
use myblob.Base.Text.{Bytes}
use myblob.Network.Connection.{
  Connection, ConnectionState, Answers, mark_idle, is_idle, is_in_use, is_closed, is_idle_too_long,
}
use myblob.Network.ConnectionManager.{
  Manager, Stats, init, take_idle, take_slot, make_key, without_closed, get_new, get_connection,
  add_connection, create_new_connection, return_connection, drop_null, fill_null, keep_fresh,
  reset_old, close_idle_connections, count_slots, get_stats,
}
use myblob.Network.ConnectionManager.Slots.{World, get, give, after_get}
use myblob.Network.ConnectionManager.Bounds.{
  AnyStep, call, clean, Steps, done, next, resting, fresh,
}

abbrev IdleTable : List (Bytes × Connection) → Type 0
IdleTable [] = Unit
IdleTable ((k, c) ∷ idle) = (is_idle c.state ≡ true) × IdleTable idle

abbrev IdleSlots : List (Option Connection) → Type 0
IdleSlots [] = Unit
IdleSlots (none ∷ pool) = IdleSlots pool
IdleSlots (some c ∷ pool) = (is_idle c.state ≡ true) × IdleSlots pool

-- No connection that the manager keeps is in use.
record Quiet (m : Manager) : Type 0 where
  table : IdleTable m.idle
  slots : IdleSlots m.pool

take_idle-IdleTable :
    (key : Bytes) (idle : List (Bytes × Connection)) (c : Connection)
    (rest : List (Bytes × Connection))
    → take_idle key idle ≡ some (c, rest)
    → IdleTable idle
    → (is_idle c.state ≡ true) × IdleTable rest
unfolding take_idle
take_idle-IdleTable key [] c rest h i = ground arith
take_idle-IdleTable key ((k, d) ∷ idle) c rest h i = elim (Option-cases (take_idle key idle)) [
  | inl e ↦ ground (arith, e)
  | inr ((d', r), e) ↦ ground (arith, e, take_idle-IdleTable key idle d' r e i.1)
]

take_slot-IdleSlots :
    (host : Bytes) (port : ℕ) (use_tls : Bool) (pool : List (Option Connection)) (c : Connection)
    (rest : List (Option Connection))
    → take_slot host port use_tls pool ≡ some (c, rest)
    → IdleSlots pool
    → IdleSlots rest
unfolding take_slot
take_slot-IdleSlots host port use_tls [] c rest h i = ground arith
take_slot-IdleSlots host port use_tls (none ∷ pool) c rest h i =
    elim (Option-cases (take_slot host port use_tls pool)) [
      | inl e ↦ ground (arith, e)
      | inr ((d', r), e) ↦ ground (arith, e, take_slot-IdleSlots host port use_tls pool d' r e i)
    ]
take_slot-IdleSlots host port use_tls (some d ∷ pool) c rest h i =
    elim (Option-cases (take_slot host port use_tls pool)) [
      | inl e ↦ ground (arith, e)
      | inr ((d', r), e) ↦ ground (arith, e, take_slot-IdleSlots host port use_tls pool d' r e i.1)
    ]

without_closed-IdleSlots :
    (pool : List (Option Connection)) → IdleSlots pool → IdleSlots (without_closed pool)
unfolding without_closed
without_closed-IdleSlots [] h = tt
without_closed-IdleSlots (none ∷ pool) h = without_closed-IdleSlots pool h
without_closed-IdleSlots (some c ∷ pool) h =
    if_lem IdleSlots (is_closed c.state) (without_closed-IdleSlots pool h.1)
      (h.0, without_closed-IdleSlots pool h.1)

append_null-IdleSlots :
    (pool : List (Option Connection)) → IdleSlots pool → IdleSlots (pool ++ none ∷ [])
append_null-IdleSlots [] h = tt
append_null-IdleSlots (none ∷ pool) h = append_null-IdleSlots pool h
append_null-IdleSlots (some c ∷ pool) h = (h.0, append_null-IdleSlots pool h.1)

drop_null-IdleSlots :
    (pool : List (Option Connection)) → IdleSlots pool → IdleSlots (drop_null pool)
unfolding drop_null
drop_null-IdleSlots [] h = tt
drop_null-IdleSlots (none ∷ pool) h = h
drop_null-IdleSlots (some c ∷ pool) h = (h.0, drop_null-IdleSlots pool h.1)

fill_null-IdleSlots :
    (c : Connection) (pool : List (Option Connection))
    → is_idle c.state ≡ true
    → IdleSlots pool
    → IdleSlots (fill_null c pool)
unfolding fill_null
fill_null-IdleSlots c [] i h = tt
fill_null-IdleSlots c (none ∷ pool) i h = (i, h)
fill_null-IdleSlots c (some d ∷ pool) i h = (h.0, fill_null-IdleSlots c pool i h.1)

keep_fresh-IdleTable :
    (now limit : ℕ) (idle : List (Bytes × Connection))
    → IdleTable idle
    → IdleTable (keep_fresh now limit idle)
unfolding keep_fresh
keep_fresh-IdleTable now limit [] h = tt
keep_fresh-IdleTable now limit ((k, c) ∷ idle) h =
    if_lem IdleTable (is_idle_too_long now limit c) (keep_fresh-IdleTable now limit idle h.1)
      (h.0, keep_fresh-IdleTable now limit idle h.1)

reset_old-IdleSlots :
    (now limit : ℕ) (pool : List (Option Connection))
    → IdleSlots pool
    → IdleSlots (reset_old now limit pool)
unfolding reset_old
reset_old-IdleSlots now limit [] h = tt
reset_old-IdleSlots now limit (none ∷ pool) h = reset_old-IdleSlots now limit pool h
reset_old-IdleSlots now limit (some c ∷ pool) h =
    let rest = reset_old-IdleSlots now limit pool h.1 in
    if_lem (λ o. IdleSlots (o ∷ reset_old now limit pool))
      (is_idle c.state && is_idle_too_long now limit c) rest (h.0, rest)

add_connection-Quiet :
    (a : Answers) (host : Bytes) (port : ℕ) (use_tls : Bool) (m : Manager)
    → Quiet m
    → Quiet (add_connection a host port use_tls m).1
unfolding add_connection
add_connection-Quiet a host port use_tls m q =
    elim (Option-cases (create_new_connection a host port use_tls)) [
      | inl e ↦ rw (e, add_connection) q
      | inr (c, e) ↦
          rw (e, add_connection)
            (record { table = q.table; slots = append_null-IdleSlots m.pool q.slots })
    ]

get_connection-Quiet :
    (a : Answers) (host : Bytes) (port : ℕ) (use_tls : Bool) (m : Manager)
    → Quiet m
    → Quiet (get_connection a host port use_tls m).1
unfolding get_connection get_new
get_connection-Quiet a host port use_tls m q =
    let P : Option Connection × Manager → Type 0 = λ t. Quiet t.1 in
    let cleaned = record m { pool = without_closed m.pool } in
    let q' : Quiet cleaned = record {
      table = q.table;
      slots = without_closed-IdleSlots m.pool q.slots;
    } in
    if_lem P m.stop q (elim (Option-cases (take_idle (make_key host port use_tls) m.idle)) [
      | inr ((c, rest), e) ↦
          let (_, i) = take_idle-IdleTable _ m.idle c rest e q.table in
          rw e (record { table = i; slots = q.slots })
      | inl e ↦ elim (Option-cases (take_slot host port use_tls m.pool)) [
        | inr ((c, rest), f) ↦
            rw (e, f)
              (record {
                table = q.table;
                slots = take_slot-IdleSlots host port use_tls m.pool c rest f q.slots;
              })
        | inl f ↦
            rw (e, f)
              (if_lem P (ltb (length m.pool) m.max_connections)
                (add_connection-Quiet a host port use_tls m q)
                (if_lem P (ltb (length (without_closed m.pool)) m.max_connections)
                  (add_connection-Quiet a host port use_tls cleaned q') q'))
      ]
    ])

return_connection-Quiet :
    (c : Connection) (m : Manager) → Quiet m → Quiet (return_connection (some c) m)
unfolding return_connection mark_idle
return_connection-Quiet c m q =
    if_lem Quiet (is_closed c.state || not c.connected)
      (record { table = q.table; slots = drop_null-IdleSlots m.pool q.slots })
      (elim (Option-cases (take_idle (make_key c.host c.port c.use_tls) m.idle)) [
        | inl e ↦ rw e (record { table = (refl, q.table); slots = q.slots })
        | inr ((d, rest), e) ↦
            let (i, t) = take_idle-IdleTable _ m.idle d rest e q.table in
            rw e (record { table = (refl, t); slots = fill_null-IdleSlots d m.pool i q.slots })
      ])

after_get-manager : (r : Option Connection × Manager) (n : ℕ) → (after_get r n).manager ≡ r.1
after_get-manager (none, m) n = refl
after_get-manager (some c, m) n = refl

step-Quiet : {w w' : World} → AnyStep w w' → Quiet w.manager → Quiet w'.manager
unfolding close_idle_connections
step-Quiet (call (get a host port use_tls m working)) q =
    rw (after_get-manager (get_connection a host port use_tls m) working)
      (get_connection-Quiet a host port use_tls m q)
step-Quiet (call (give c m working)) q = return_connection-Quiet c m q
step-Quiet (clean now m working) q = record {
  table = keep_fresh-IdleTable now m.max_idle_seconds m.idle q.table;
  slots = reset_old-IdleSlots now m.max_idle_seconds m.pool q.slots;
}

Steps-Quiet : {w w' : World} → Steps AnyStep w w' → Quiet w.manager → Quiet w'.manager
Steps-Quiet (done w) q = q
Steps-Quiet (next w w' w'' x xs) q = Steps-Quiet xs (step-Quiet x q)

idle-not_in_use : (s : ConnectionState) → is_idle s ≡ true → is_in_use s ≡ false
idle-not_in_use ConnectionState.in_use h = sym h
idle-not_in_use _ h = refl

count_slots-IdleSlots :
    (pool : List (Option Connection)) (s : Stats)
    → IdleSlots pool
    → ((count_slots pool s).in_use_connections ≡ s.in_use_connections)
      × ((count_slots pool s).total_connections ≡ s.total_connections + resting pool)
      × ((count_slots pool s).idle_connections ≡ s.idle_connections + resting pool)
unfolding count_slots
count_slots-IdleSlots [] s h = ground arith
count_slots-IdleSlots (none ∷ pool) s h = count_slots-IdleSlots pool s h
count_slots-IdleSlots (some c ∷ pool) s h =
    let (a, b, d) = count_slots-IdleSlots pool _ h.1 in
    (a ∙ rw (idle-not_in_use c.state h.0) refl, b ∙ omega arith, d ∙ rw h.0 (omega arith))

-- Whatever calls of `getConnection`, `returnConnection` and `closeIdleConnections` are made on a new
-- manager, with any number of connections handed out: the statistics say that none is in use, and their total counts those that are idle only.
pub stats_miss_in_use :
    (limit seconds : ℕ) (w : World)
    → Steps AnyStep (fresh limit seconds) w
    → ((get_stats w.manager).in_use_connections ≡ 0)
      × ((get_stats w.manager).total_connections ≡ length w.manager.idle + resting w.manager.pool)
      × ((get_stats w.manager).idle_connections ≡ (get_stats w.manager).total_connections)
unfolding get_stats init
stats_miss_in_use limit seconds w xs =
    let q = Steps-Quiet xs (record { table = tt; slots = tt }) in
    let (a, b, c) =
      count_slots-IdleSlots w.manager.pool
        (record {
          total_connections = length w.manager.idle;
          idle_connections = length w.manager.idle;
          in_use_connections = 0;
          max_connections = w.manager.max_connections;
        })
        q.slots in
    (a, b, omega (arith, b, c))
