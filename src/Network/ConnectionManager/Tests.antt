-- ===== src/Network/ConnectionManager/Tests.antt =====
-- The pool on concrete inputs.
use myblob.Base.{◌≡◌, refl, ◌≤◌, ◌+◌, true, false, none, some, [], ◌∷◌, arith, length}
use myblob.Base.Text.{codes, Bytes}
use myblob.Network.Connection.{
  Connection, ConnectionState, Answers, connect, resolve, dial, make, mark_used, mark_idle,
  is_idle_too_long, is_connecting,
}
use myblob.Network.Connection.Descriptors.{connect_balances, held, opened, closings}
use myblob.Network.ConnectionManager.{
  Manager, init, get_connection, get_new, add_connection, create_new_connection, take_idle,
  take_slot, return_connection, make_key, get_stats, close_idle_connections,
}
use myblob.Network.ConnectionManager.Slots.{World, Step, get, give}
use myblob.Network.ConnectionManager.Bounds.{
  AnyStep, call, Steps, done, next, fresh, total, Steps-within, Steps-exact, get_succeeds,
}
use myblob.Network.ConnectionManager.Lost.{idle_close_exhausts}
use myblob.Network.ConnectionManager.Counted.{stats_miss_in_use}

-- Everything succeeds at once, with descriptor 5, at time 7.
abbrev pub all_well : Answers
all_well = record {
  first_socket = some 4;
  resolved = true;
  second_socket = some 5;
  connect_done = true;
  in_progress = false;
  poll_ready = false;
  no_socket_error = false;
  now = 7;
}

abbrev pub host : Bytes
host = codes "bucket"

abbrev pub new_one : Connection
new_one = record {
  host = host;
  port = 80;
  use_tls = false;
  sockfd = some 5;
  state = ConnectionState.idle;
  last_used = 7;
  connected = true;
}

key_tls : make_key host 443 true ≡ codes "bucket:443:tls"
unfolding make_key
key_tls = refl

created : create_new_connection all_well host 80 false ≡ some new_one
unfolding create_new_connection connect resolve dial make
created = refl

abbrev w0 : World
w0 = fresh 2 300

abbrev w1 : World
w1 = record {
  manager = record {
    max_connections = 2;
    max_idle_seconds = 300;
    stop = false;
    idle = [];
    pool = none ∷ [];
  };
  working = 1;
}

abbrev w2 : World
w2 = record {
  manager = record {
    max_connections = 2;
    max_idle_seconds = 300;
    stop = false;
    idle = (codes "bucket:80", new_one) ∷ [];
    pool = none ∷ [];
  };
  working = 0;
}

first_get : Step w0 w1
unfolding get_connection get_new add_connection create_new_connection connect resolve dial make
    mark_used take_idle take_slot make_key init
first_get = get all_well host 80 false (init 2 300) 0

first_give : Step w1 w2
unfolding return_connection make_key take_idle mark_idle
first_give = give new_one w1.manager 0

both : Steps Step w0 w2
both = next w0 w1 w2 first_get (next w1 w2 w2 first_give (done w2))

both_any : Steps AnyStep w0 w1
both_any = next w0 w1 w1 (call first_get) (done w1)

Steps-within_example : total w1 ≤ 2
Steps-within_example = Steps-within 2 300 w1 both_any

Steps-exact_example : total w2 ≡ length w2.manager.pool
Steps-exact_example = Steps-exact 2 300 w2 both

get_succeeds_example :
    (c : Connection) × ((get_connection all_well host 80 false w2.manager).0 ≡ some c)
get_succeeds_example =
    get_succeeds 2 300 w2 all_well host 80 false new_one both refl (omega arith) created

abbrev full : Manager
full = record {
  max_connections = 1;
  max_idle_seconds = 300;
  stop = false;
  idle = (codes "bucket:80", new_one) ∷ [];
  pool = none ∷ [];
}

idle_close_exhausts_example :
    (get_connection all_well host 80 false (close_idle_connections 1000 full)).0 ≡ none
unfolding is_idle_too_long
idle_close_exhausts_example =
    idle_close_exhausts full 1000 all_well host 80 false refl (refl, tt) tt

stats_miss_in_use_example :
    ((get_stats w1.manager).in_use_connections ≡ 0)
    × ((get_stats w1.manager).total_connections ≡ 0)
    × ((get_stats w1.manager).idle_connections ≡ (get_stats w1.manager).total_connections)
stats_miss_in_use_example = stats_miss_in_use 2 300 w1 both_any

-- Another descriptor is left from before.
abbrev opened_before : Connection
opened_before = record new_one { sockfd = some 3 }

connect_balances_example :
    let (b, c', calls) = connect all_well opened_before in
    (held opened_before.sockfd + opened calls ≡ held c'.sockfd + closings calls)
    × (b ≡ true → c'.connected ≡ true)
    × (b ≡ false → is_connecting opened_before.state ≡ false → c'.sockfd ≡ none)
connect_balances_example = connect_balances all_well opened_before
