-- ===== src/Network/Connection.antt =====
-- One TCP connection: include/network/connection.hpp and src/network/connection.cpp. `ssl_` is left
-- out, since no code sets it; the kernel's and the resolver's answers are parameters.
pub mod Descriptors
use myblob.Base.{
  ℕ, zero, suc, ◌+◌, ◌-◌, ◌≤◌, ◌<◌, ◌≡◌, refl, Bool, true, false, ◌&&◌, Option, none, some, List,
  [], ◌∷◌, ◌++◌, arith, ltb, if◌then◌else◌,
}
use myblob.Base.Text.{Bytes}

pub data ConnectionState : Type 0 where
  idle : ConnectionState
  in_use : ConnectionState
  connecting : ConnectionState
  closed : ConnectionState

abbrev pub is_idle : ConnectionState → Bool
is_idle ConnectionState.idle = true
is_idle _ = false

abbrev pub is_closed : ConnectionState → Bool
is_closed ConnectionState.closed = true
is_closed _ = false

abbrev pub is_in_use : ConnectionState → Bool
is_in_use ConnectionState.in_use = true
is_in_use _ = false

abbrev pub is_connecting : ConnectionState → Bool
is_connecting ConnectionState.connecting = true
is_connecting _ = false

-- `sockfd` is `none` for -1.
pub record Connection : Type 0 where
  pub host : Bytes
  pub port : ℕ
  pub use_tls : Bool
  pub sockfd : Option ℕ
  pub state : ConnectionState
  pub last_used : ℕ
  pub connected : Bool

-- A new connection, at the time `now`.
unfoldable pub make : Bytes → ℕ → Bool → ℕ → Connection
make host port use_tls now = record {
  host = host;
  port = port;
  use_tls = use_tls;
  sockfd = none;
  state = ConnectionState.idle;
  last_used = now;
  connected = false;
}

unfoldable pub mark_used : ℕ → Connection → Connection
mark_used now c = record c { state = ConnectionState.in_use; last_used = now }

unfoldable pub mark_idle : Connection → Connection
mark_idle c = record c { state = ConnectionState.idle }

unfoldable pub is_idle_too_long : ℕ → ℕ → Connection → Bool
is_idle_too_long now max_idle_seconds c =
    is_idle c.state && ltb max_idle_seconds (now - c.last_used)

-- The calls that open and close descriptors, in order.
pub data Call : Type 0 where
  opens : ℕ → Call
  closes : ℕ → Call

abbrev pub close_held : Option ℕ → List Call
close_held none = []
close_held (some fd) = closes fd ∷ []

unfoldable pub disconnect : Connection → Connection × List Call
disconnect c = (
  record c { sockfd = none; connected = false; state = ConnectionState.closed },
  close_held c.sockfd,
)

-- What the system answers while a connection is made: the first socket, whether the name is
-- resolved, the second socket, whether `connect` succeeds at once or is under way, whether `poll`
-- reports it within the time limit, whether the socket then has no error, and the time.
pub record Answers : Type 0 where
  pub first_socket : Option ℕ
  pub resolved : Bool
  pub second_socket : Option ℕ
  pub connect_done : Bool
  pub in_progress : Bool
  pub poll_ready : Bool
  pub no_socket_error : Bool
  pub now : ℕ

-- The steps 4 and 5, on the socket of the resolved address.
unfoldable pub dial : Answers → ℕ → Connection → Bool × Connection × List Call
dial a fd c =
    if a.connect_done
    then (
      true,
      record c {
        sockfd = some fd;
        connected = true;
        state = ConnectionState.idle;
        last_used = a.now;
      },
      [],
    )
    else if a.in_progress && (a.poll_ready && a.no_socket_error)
    then (
      true,
      record c {
        sockfd = some fd;
        connected = true;
        state = ConnectionState.idle;
        last_used = a.now;
      },
      [],
    )
    else (false, record c { sockfd = none; state = ConnectionState.closed }, closes fd ∷ [])

-- The steps 2 and 3, on the socket of step 1.
unfoldable pub resolve : Answers → ℕ → Connection → Bool × Connection × List Call
resolve a first c =
    if a.resolved
    then elim a.second_socket [
      | none ↦
          (false, record c { sockfd = none; state = ConnectionState.closed }, closes first ∷ [])
      | some fd ↦ let (b, c', calls) = dial a fd c in (b, c', closes first ∷ opens fd ∷ calls)
    ]
    else (false, record c { sockfd = none; state = ConnectionState.closed }, closes first ∷ [])

-- `sockfd_ > 0`.
abbrev pub positive : Option ℕ → Bool
positive none = false
positive (some fd) = ltb 0 fd

unfoldable pub connect : Answers → Connection → Bool × Connection × List Call
connect a c =
    if is_connecting c.state
    then (false, c, [])
    else if positive c.sockfd && c.connected
    then (true, c, [])
    else let started = record c { state = ConnectionState.connecting } in
      elim c.sockfd [
        | some fd ↦ resolve a fd started
        | none ↦ elim a.first_socket [
          | none ↦ (false, record started { state = ConnectionState.closed }, [])
          | some fd ↦ let (b, c', calls) = resolve a fd started in (b, c', opens fd ∷ calls)
        ]
      ]
