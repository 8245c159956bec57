-- ===== src/Network/Connection/Descriptors.antt =====
-- The file descriptors that a connection opens and closes.
use myblob.Base.{ℕ, suc, ◌+◌, ◌≡◌, true, false, Option, none, some, List, [], ◌∷◌, arith}
use myblob.Network.Connection.{
  Connection, Call, opens, closes, Answers, dial, resolve, connect, is_connecting,
}

abbrev pub held : Option ℕ → ℕ
held none = 0
held (some fd) = 1

abbrev pub opened : List Call → ℕ
opened [] = 0
opened (opens fd ∷ cs) = suc (opened cs)
opened (closes fd ∷ cs) = opened cs

abbrev pub closings : List Call → ℕ
closings [] = 0
closings (opens fd ∷ cs) = closings cs
closings (closes fd ∷ cs) = suc (closings cs)

-- The number of descriptors that `connect` opens, with the one held before, is the number that it
-- closes, with the one held at the end. Where it fails, the connection holds none at the end,
-- unless another call is connecting; where it succeeds, the connection is connected.
pub connect_balances :
    (a : Answers) (c : Connection)
    → let (b, c', calls) = connect a c in
      (held c.sockfd + opened calls ≡ held c'.sockfd + closings calls)
      × (b ≡ true → c'.connected ≡ true)
      × (b ≡ false → is_connecting c.state ≡ false → c'.sockfd ≡ none)
unfolding connect resolve dial
connect_balances a c = ground arith
