-- ===== src/Network/ConnectionManager/Bounds.antt =====
-- How many connections there can be, over any sequence of calls.
use myblob.Base.{
  ℕ, suc, ◌+◌, ◌-◌, ◌≤◌, ◌<◌, ◌≡◌, refl, ◌∙◌, Bool, true, false, Option, none, some, List, [], ◌∷◌,
  arith, ltb, length, Option-cases, inl, inr,
}
use myblob.Base.Text.{Bytes}
use myblob.Network.Connection.{Connection, Answers, mark_used}
use myblob.Network.ConnectionManager.{
  Manager, init, take_idle, take_slot, make_key, add_connection, create_new_connection, get_new,
  get_connection, return_connection, keep_fresh, reset_old, close_idle_connections,
}
use myblob.Network.ConnectionManager.Slots.{World, Step, get, give, Inv, nulls, Step-Inv}

-- The calls with the clean-up, at any time.
pub data AnyStep : World → World → Type 0 where
  call : {w w' : World} → Step w w' → AnyStep w w'
  clean :
      (now : ℕ) (m : Manager) (working : ℕ)
      → AnyStep
          (record { manager = m; working = working })
          (record { manager = close_idle_connections now m; working = working })

pub data Steps (R : World → World → Type 0) : World → World → Type 0 where
  done : (w : World) → Steps R w w
  next : (w w' w'' : World) → R w w' → Steps R w' w'' → Steps R w w''

keep_fresh-length :
    (now limit : ℕ) (idle : List (Bytes × Connection))
    → length (keep_fresh now limit idle) ≤ length idle
unfolding keep_fresh
keep_fresh-length now limit [] = ground arith
keep_fresh-length now limit ((k, c) ∷ idle) = ground (arith, keep_fresh-length now limit idle)

reset_old-nulls :
    (now limit : ℕ) (pool : List (Option Connection))
    → (nulls pool ≤ nulls (reset_old now limit pool))
      × (length (reset_old now limit pool) ≡ length pool)
unfolding reset_old
reset_old-nulls now limit [] = ground arith
reset_old-nulls now limit (none ∷ pool) = ground (arith, reset_old-nulls now limit pool)
reset_old-nulls now limit (some c ∷ pool) = ground (arith, reset_old-nulls now limit pool)

AnyStep-Inv : (s : ℕ) {w w' : World} → AnyStep w w' → Inv s w → (t : ℕ) × Inv t w'
unfolding close_idle_connections
AnyStep-Inv s (call x) i = (s, Step-Inv s x i)
AnyStep-Inv s (clean now m working) i =
    let (n, l) = reset_old-nulls now m.max_idle_seconds m.pool in
    let pool = reset_old now m.max_idle_seconds m.pool in
    let idle = keep_fresh now m.max_idle_seconds m.idle in
    (
      nulls pool - (working + length idle),
      record {
        balanced = omega (arith, n, i.balanced, keep_fresh-length now m.max_idle_seconds m.idle);
        bounded = omega (arith, l, i.bounded);
      },
    )

Steps-Inv : (s : ℕ) {w w' : World} → Steps Step w w' → Inv s w → Inv s w'
Steps-Inv s (done w) i = i
Steps-Inv s (next w w' w'' x xs) i = Steps-Inv s xs (Step-Inv s x i)

calls-Inv : (s : ℕ) {w w' : World} → Steps AnyStep w w' → Inv s w → (t : ℕ) × Inv t w'
calls-Inv s (done w) i = (s, i)
calls-Inv s (next w w' w'' x xs) i = let (t, j) = AnyStep-Inv s x i in calls-Inv t xs j

-- The connections that rest in slots of the pool.
abbrev pub resting : List (Option Connection) → ℕ
resting [] = 0
resting (none ∷ pool) = resting pool
resting (some c ∷ pool) = suc (resting pool)

nulls-resting : (pool : List (Option Connection)) → nulls pool + resting pool ≡ length pool
nulls-resting [] = omega arith
nulls-resting (none ∷ pool) = omega (arith, nulls-resting pool)
nulls-resting (some c ∷ pool) = omega (arith, nulls-resting pool)

-- The connections that are open, wherever they are.
abbrev pub total : World → ℕ
total w = w.working + length w.manager.idle + resting w.manager.pool

abbrev pub fresh : ℕ → ℕ → World
fresh limit seconds = record { manager = init limit seconds; working = 0 }

fresh-Inv : (limit seconds : ℕ) → Inv 0 (fresh limit seconds)
unfolding init
fresh-Inv limit seconds = record { balanced = refl; bounded = omega arith }

Step-limit : {w w' : World} → Step w w' → w'.manager.max_connections ≡ w.manager.max_connections
unfolding get_connection get_new add_connection return_connection
Step-limit (get a host port use_tls m working) = ground arith
Step-limit (give c m working) = ground arith

AnyStep-limit :
    {w w' : World} → AnyStep w w' → w'.manager.max_connections ≡ w.manager.max_connections
unfolding close_idle_connections
AnyStep-limit (call x) = Step-limit x
AnyStep-limit (clean now m working) = refl

calls-limit :
    {w w' : World} → Steps AnyStep w w' → w'.manager.max_connections ≡ w.manager.max_connections
calls-limit (done w) = refl
calls-limit (next w w' w'' x xs) = calls-limit xs ∙ AnyStep-limit x

Steps-limit :
    {w w' : World} → Steps Step w w' → w'.manager.max_connections ≡ w.manager.max_connections
Steps-limit (done w) = refl
Steps-limit (next w w' w'' x xs) = Steps-limit xs ∙ Step-limit x

-- Whatever connections the users of a new manager get and return, in whatever state, and whenever
-- idle ones are closed, there are never more than `limit` at a time: handed out, in the table and
-- in the slots together.
pub Steps-within :
    (limit seconds : ℕ) (w : World) → Steps AnyStep (fresh limit seconds) w → total w ≤ limit
unfolding init
Steps-within limit seconds w xs =
    let (t, i) = calls-Inv 0 xs (fresh-Inv limit seconds) in
    omega (arith, i.balanced, i.bounded, nulls-resting w.manager.pool, calls-limit xs)

-- As long as the users of a new manager get and return connections and idle ones are not closed,
-- there is one slot for each connection that is handed out, in the table or in a slot.
pub Steps-exact :
    (limit seconds : ℕ) (w : World)
    → Steps Step (fresh limit seconds) w
    → total w ≡ length w.manager.pool
Steps-exact limit seconds w xs =
    let i = Steps-Inv 0 xs (fresh-Inv limit seconds) in
    omega (arith, i.balanced, nulls-resting w.manager.pool)

-- After any calls by which users of a new manager get and return connections, with fewer of them
-- open than the limit, the manager not stopped and a host that can be reached, `getConnection`
-- hands out a connection.
pub get_succeeds :
    (limit seconds : ℕ) (w : World) (a : Answers) (host : Bytes) (port : ℕ) (use_tls : Bool)
    (fresh_connection : Connection)
    → Steps Step (fresh limit seconds) w
    → w.manager.stop ≡ false
    → total w < limit
    → create_new_connection a host port use_tls ≡ some fresh_connection
    → (c : Connection) × ((get_connection a host port use_tls w.manager).0 ≡ some c)
unfolding get_connection get_new add_connection init
get_succeeds limit seconds w a host port use_tls d xs run few e =
    let exact = Steps-exact limit seconds w xs in
    let room : ltb (length w.manager.pool) w.manager.max_connections ≡ true =
      ground (arith, exact, Steps-limit xs) in
    elim (Option-cases (take_idle (make_key host port use_tls) w.manager.idle)) [
      | inr ((c, rest), f) ↦ (mark_used a.now c, rw (run, f) refl)
      | inl f ↦ elim (Option-cases (take_slot host port use_tls w.manager.pool)) [
        | inr ((c, rest), g) ↦ (mark_used a.now c, rw (run, f, g) refl)
        | inl g ↦ (mark_used a.now d, rw (run, f, g, room, e, add_connection) refl)
      ]
    ]
