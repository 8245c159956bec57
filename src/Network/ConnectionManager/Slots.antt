-- ===== src/Network/ConnectionManager/Slots.antt =====
-- How the slots of the pool are accounted for, over any sequence of calls.
use myblob.Base.{
  ℕ, suc, ◌+◌, ◌≤◌, ◌<◌, ◌≡◌, refl, ap, Bool, not, ◌||◌, Option, none, some, List, [], ◌∷◌, ◌++◌,
  arith, ltb, length, length-append, Bool-cases, Option-cases, inl, inr, if_lem,
}
use myblob.Base.Text.{Bytes}
use myblob.Network.Connection.{Connection, Answers, is_closed}
use myblob.Network.ConnectionManager.{
  Manager, take_idle, take_slot, make_key, add_connection, create_new_connection, without_closed,
  get_new, get_connection, drop_null, fill_null, return_connection,
}

abbrev pub nulls : List (Option Connection) → ℕ
nulls [] = 0
nulls (none ∷ pool) = suc (nulls pool)
nulls (some c ∷ pool) = nulls pool

-- The pool with its users: `working` connections are handed out and not yet returned.
pub record World : Type 0 where
  pub manager : Manager
  pub working : ℕ

abbrev pub after_get : Option Connection × Manager → ℕ → World
after_get (none, m) working = record { manager = m; working = working }
after_get (some c, m) working = record { manager = m; working = suc working }

-- Calls of the users: only what was handed out is returned, in whatever state it is by then.
pub data Step : World → World → Type 0 where
  get :
      (a : Answers) (host : Bytes) (port : ℕ) (use_tls : Bool) (m : Manager) (working : ℕ)
      → Step
          (record { manager = m; working = working })
          (after_get (get_connection a host port use_tls m) working)
  give :
      (c : Connection) (m : Manager) (working : ℕ)
      → Step
          (record { manager = m; working = suc working })
          (record { manager = return_connection (some c) m; working = working })

-- The slots that are null stand for the connections handed out and those in the table.
pub record Inv (slack : ℕ) (w : World) : Type 0 where
  pub balanced : nulls w.manager.pool ≡ w.working + length w.manager.idle + slack
  pub bounded : length w.manager.pool ≤ w.manager.max_connections

take_idle-length :
    (key : Bytes) (idle : List (Bytes × Connection)) (c : Connection)
    (rest : List (Bytes × Connection))
    → take_idle key idle ≡ some (c, rest)
    → length idle ≡ suc (length rest)
unfolding take_idle
take_idle-length key [] c rest h = ground arith
take_idle-length key ((k, d) ∷ idle) c rest h = elim (Option-cases (take_idle key idle)) [
  | inl e ↦ ground (arith, e)
  | inr ((d', r), e) ↦ ground (arith, e, take_idle-length key idle d' r e)
]

take_slot-nulls :
    (host : Bytes) (port : ℕ) (use_tls : Bool) (pool : List (Option Connection)) (c : Connection)
    (rest : List (Option Connection))
    → take_slot host port use_tls pool ≡ some (c, rest)
    → (nulls rest ≡ suc (nulls pool)) × (length rest ≡ length pool)
unfolding take_slot
take_slot-nulls host port use_tls [] c rest h = ground arith
take_slot-nulls host port use_tls (none ∷ pool) c rest h =
    elim (Option-cases (take_slot host port use_tls pool)) [
      | inl e ↦ ground (arith, e)
      | inr ((d', r), e) ↦ ground (arith, e, take_slot-nulls host port use_tls pool d' r e)
    ]
take_slot-nulls host port use_tls (some d ∷ pool) c rest h =
    elim (Option-cases (take_slot host port use_tls pool)) [
      | inl e ↦ ground (arith, e)
      | inr ((d', r), e) ↦ ground (arith, e, take_slot-nulls host port use_tls pool d' r e)
    ]

without_closed-nulls :
    (pool : List (Option Connection))
    → (nulls (without_closed pool) ≡ nulls pool) × (length (without_closed pool) ≤ length pool)
unfolding without_closed
without_closed-nulls [] = ground arith
without_closed-nulls (none ∷ pool) = ground (arith, without_closed-nulls pool)
without_closed-nulls (some c ∷ pool) = ground (arith, without_closed-nulls pool)

nulls-append : (pool : List (Option Connection)) → nulls (pool ++ none ∷ []) ≡ suc (nulls pool)
nulls-append [] = refl
nulls-append (none ∷ pool) = ap suc (nulls-append pool)
nulls-append (some c ∷ pool) = nulls-append pool

drop_null-nulls :
    (pool : List (Option Connection))
    → 0 < nulls pool
    → (suc (nulls (drop_null pool)) ≡ nulls pool) × (length (drop_null pool) ≤ length pool)
unfolding drop_null
drop_null-nulls [] h = ground arith
drop_null-nulls (none ∷ pool) h = ground arith
drop_null-nulls (some c ∷ pool) h = ground (arith, drop_null-nulls pool h)

fill_null-nulls :
    (c : Connection) (pool : List (Option Connection))
    → 0 < nulls pool
    → (suc (nulls (fill_null c pool)) ≡ nulls pool) × (length (fill_null c pool) ≡ length pool)
unfolding fill_null
fill_null-nulls c [] h = ground arith
fill_null-nulls c (none ∷ pool) h = ground arith
fill_null-nulls c (some d ∷ pool) h = ground (arith, fill_null-nulls c pool h)

add_connection-Inv :
    (s : ℕ) (a : Answers) (host : Bytes) (port : ℕ) (use_tls : Bool) (m : Manager) (working : ℕ)
    → Inv s (record { manager = m; working = working })
    → length m.pool < m.max_connections
    → Inv s (after_get (add_connection a host port use_tls m) working)
unfolding add_connection
add_connection-Inv s a host port use_tls m working i l =
    elim (Option-cases (create_new_connection a host port use_tls)) [
      | inl e ↦ rw (e, add_connection, after_get) i
      | inr (c, e) ↦
          rw (e, add_connection, after_get)
            (record {
              balanced = omega (arith, nulls-append m.pool, i.balanced);
              bounded = omega (arith, length-append m.pool (none ∷ []));
            })
    ]

get_new-Inv :
    (s : ℕ) (a : Answers) (host : Bytes) (port : ℕ) (use_tls : Bool) (m : Manager) (working : ℕ)
    → Inv s (record { manager = m; working = working })
    → Inv s (after_get (get_new a host port use_tls m) working)
unfolding get_new
get_new-Inv s a host port use_tls m working i =
    elim (Bool-cases (ltb (length m.pool) m.max_connections)) [
      | inl e ↦ rw e (add_connection-Inv s a host port use_tls m working i (ground arith))
      | inr e ↦
          let cleaned = record m { pool = without_closed m.pool } in
          let kept = without_closed-nulls m.pool in
          let i' : Inv s (record { manager = cleaned; working = working }) = record {
            balanced = omega (arith, kept.0, i.balanced);
            bounded = omega (arith, kept.1, i.bounded);
          } in
          elim (Bool-cases (ltb (length (without_closed m.pool)) m.max_connections)) [
            | inl e' ↦
                rw (e, e')
                  (add_connection-Inv s a host port use_tls cleaned working i' (ground arith))
            | inr e' ↦ rw (e, e') i'
          ]
    ]

pub get_connection-Inv :
    (s : ℕ) (a : Answers) (host : Bytes) (port : ℕ) (use_tls : Bool) (m : Manager) (working : ℕ)
    → Inv s (record { manager = m; working = working })
    → Inv s (after_get (get_connection a host port use_tls m) working)
unfolding get_connection
get_connection-Inv s a host port use_tls m working i =
    if_lem (λ t. Inv s (after_get t working)) m.stop i
      (elim (Option-cases (take_idle (make_key host port use_tls) m.idle)) [
        | inr ((c, rest), e) ↦
            rw (e, after_get)
              (record {
                balanced = omega (arith, take_idle-length _ m.idle c rest e, i.balanced);
                bounded = i.bounded;
              })
        | inl e ↦ elim (Option-cases (take_slot host port use_tls m.pool)) [
          | inr ((c, rest), f) ↦
              let (n, l) = take_slot-nulls host port use_tls m.pool c rest f in
              rw (e, f, after_get)
                (record {
                  balanced = omega (arith, n, i.balanced);
                  bounded = omega (arith, l, i.bounded);
                })
          | inl f ↦ rw (e, f) (get_new-Inv s a host port use_tls m working i)
        ]
      ])

pub return_connection-Inv :
    (s : ℕ) (c : Connection) (m : Manager) (working : ℕ)
    → Inv s (record { manager = m; working = suc working })
    → Inv s (record { manager = return_connection (some c) m; working = working })
unfolding return_connection
return_connection-Inv s c m working i =
    let some_null : 0 < nulls m.pool = omega (arith, i.balanced) in
    elim (Bool-cases (is_closed c.state || not c.connected)) [
      | inl e ↦
          let (n, l) = drop_null-nulls m.pool some_null in
          rw e (record {
            balanced = omega (arith, n, i.balanced);
            bounded = omega (arith, l, i.bounded);
          })
      | inr e ↦ elim (Option-cases (take_idle (make_key c.host c.port c.use_tls) m.idle)) [
        | inl e' ↦ rw (e, e') (record { balanced = omega (arith, i.balanced); bounded = i.bounded })
        | inr ((d, rest), e') ↦
            let (n, l) = fill_null-nulls d m.pool some_null in
            rw (e, e')
              (record {
                balanced = omega (arith, n, i.balanced, take_idle-length _ m.idle d rest e');
                bounded = omega (arith, l, i.bounded);
              })
      ]
    ]

pub Step-Inv : (s : ℕ) {w w' : World} → Step w w' → Inv s w → Inv s w'
Step-Inv s (get a host port use_tls m working) i =
    get_connection-Inv s a host port use_tls m working i
Step-Inv s (give c m working) i = return_connection-Inv s c m working i
