-- ===== src/Network/ConnectionManager/Lost.antt =====
-- What closing idle connections does to the slots of the pool.
use myblob.Base.{
  ℕ, suc, ◌≡◌, refl, ap, Bool, true, false, Option, none, some, List, [], ◌∷◌, arith, length, ltb,
  if_lem,
}
use myblob.Base.Text.{Bytes}
use myblob.Network.Connection.{Connection, Answers, is_idle, is_idle_too_long}
use myblob.Network.ConnectionManager.{
  Manager, take_idle, take_slot, without_closed, get_new, get_connection, keep_fresh, reset_old,
  close_idle_connections,
}

-- Every connection of the table has been idle for too long.
abbrev pub AllOld : ℕ → ℕ → List (Bytes × Connection) → Type 0
AllOld now limit [] = Unit
AllOld now limit ((k, c) ∷ idle) = (is_idle_too_long now limit c ≡ true) × AllOld now limit idle

-- Every connection in a slot has been idle for too long.
abbrev pub SlotsOld : ℕ → ℕ → List (Option Connection) → Type 0
SlotsOld now limit [] = Unit
SlotsOld now limit (none ∷ pool) = SlotsOld now limit pool
SlotsOld now limit (some c ∷ pool) =
    (is_idle c.state ≡ true) × (is_idle_too_long now limit c ≡ true) × SlotsOld now limit pool

abbrev AllNull : List (Option Connection) → Type 0
AllNull [] = Unit
AllNull (none ∷ pool) = AllNull pool
AllNull (some c ∷ pool) = ⊥

keep_fresh-AllOld :
    (now limit : ℕ) (idle : List (Bytes × Connection))
    → AllOld now limit idle
    → keep_fresh now limit idle ≡ []
unfolding keep_fresh
keep_fresh-AllOld now limit [] h = refl
keep_fresh-AllOld now limit ((k, c) ∷ idle) h = rw h.0 (keep_fresh-AllOld now limit idle h.1)

reset_old-SlotsOld :
    (now limit : ℕ) (pool : List (Option Connection))
    → SlotsOld now limit pool
    → AllNull (reset_old now limit pool) × (length (reset_old now limit pool) ≡ length pool)
unfolding reset_old
reset_old-SlotsOld now limit [] h = (tt, refl)
reset_old-SlotsOld now limit (none ∷ pool) h =
    let (n, l) = reset_old-SlotsOld now limit pool h in (n, ap suc l)
reset_old-SlotsOld now limit (some c ∷ pool) (s, o, h) =
    let (n, l) = reset_old-SlotsOld now limit pool h in rw (s, o) (n, ap suc l)

take_slot-AllNull :
    (host : Bytes) (port : ℕ) (use_tls : Bool) (pool : List (Option Connection))
    → AllNull pool
    → take_slot host port use_tls pool ≡ none
unfolding take_slot
take_slot-AllNull host port use_tls [] h = refl
take_slot-AllNull host port use_tls (none ∷ pool) h =
    rw (take_slot-AllNull host port use_tls pool h) refl
take_slot-AllNull host port use_tls (some c ∷ pool) h = absurd h

without_closed-AllNull :
    (pool : List (Option Connection)) → AllNull pool → without_closed pool ≡ pool
unfolding without_closed
without_closed-AllNull [] h = refl
without_closed-AllNull (none ∷ pool) h = ap (λ t. none ∷ t) (without_closed-AllNull pool h)
without_closed-AllNull (some c ∷ pool) h = absurd h

-- Where the pool has as many slots as connections are allowed, and every connection in the table
-- and in the slots has been idle for too long: once these are closed, `getConnection` hands out
-- none, to whatever host and whatever the system answers.
pub idle_close_exhausts :
    (m : Manager) (now : ℕ) (a : Answers) (host : Bytes) (port : ℕ) (use_tls : Bool)
    → length m.pool ≡ m.max_connections
    → AllOld now m.max_idle_seconds m.idle
    → SlotsOld now m.max_idle_seconds m.pool
    → (get_connection a host port use_tls (close_idle_connections now m)).0 ≡ none
unfolding get_connection get_new close_idle_connections take_idle
idle_close_exhausts m now a host port use_tls full old slots =
    let (n, l) = reset_old-SlotsOld now m.max_idle_seconds m.pool slots in
    let none_left : ltb (length (reset_old now m.max_idle_seconds m.pool)) m.max_connections
        ≡ false =
      ground (arith, l, full) in
    if_lem {A = Option Connection × Manager} (λ t. t.0 ≡ none) m.stop refl
      (rw
        (
          keep_fresh-AllOld now m.max_idle_seconds m.idle old,
          take_slot-AllNull host port use_tls _ n,
          none_left,
          without_closed-AllNull _ n,
          none_left,
        )
        refl)
