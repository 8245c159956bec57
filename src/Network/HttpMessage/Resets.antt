-- ===== src/Network/HttpMessage/Resets.antt =====
-- What a reset leaves, and when a response is noted: src/network/http_message.cpp.
use myblob.Base.{ℕ, ◌≡◌, refl, Bool, true, false, Option, none, some, if_lem}
use myblob.Base.Text.{Bytes}
use myblob.Network.HttpHelper.{Info}
use myblob.Network.Connection.{Connection}
use myblob.Network.ConnectionManager.{Manager}
use myblob.Network.HttpMessage.Task.{MessageState, Request, Task}
use myblob.Network.HttpMessage.Sending.{
  Resigned, resigned, null_message, resign_throws, Reset, is_reset, reset_throws, lost_message,
  restart, disconnected, with_resigned, resign, reset,
}

-- `P` holds of the task that is left.
abbrev pub Leaves : (Task → Type 0) → Reset → Type 0
Leaves P (is_reset t m) = P t
Leaves P (reset_throws t) = P t
Leaves P lost_message = Unit

-- No head is noted before bytes have been received.
unfoldable pub FreshIn : MessageState → ℕ → Option Info → Type 0
FreshIn MessageState.init offset info = info ≡ none
FreshIn MessageState.tls_handshake offset info = info ≡ none
FreshIn MessageState.init_sending offset info = info ≡ none
FreshIn MessageState.sending offset info = info ≡ none
FreshIn MessageState.init_receiving offset info = info ≡ none
FreshIn MessageState.receiving offset info = offset ≡ 0 → info ≡ none
FreshIn _ offset info = Unit

abbrev pub Fresh : Task → Type 0
Fresh t = FreshIn t.state t.receive_buffer_offset t.info

pub restart-Fresh : (b : Bool) (t : Task) → Fresh (restart b t)
unfolding restart FreshIn
restart-Fresh true t = tt
restart-Fresh false t = refl

module _ (P : Task → Type 0)
    (same : (t : Task) (message : Bytes) (c : Option Connection) (r : Option Request)
      → P t
      → P (record t { message = message; connection = c; request = r })) where
  disconnected-Leaves :
      (t : Task) (message : Bytes) (m : Manager)
      → P t
      → Leaves P (disconnected (record t { message = message }) m)
  unfolding disconnected
  disconnected-Leaves t message m h = same t message none _ h

  with_resigned-Leaves :
      (give_up : Bool) (t : Task) (m : Manager) (r : Resigned)
      → P t
      → Leaves P (with_resigned give_up t m r)
  unfolding with_resigned
  with_resigned-Leaves give_up t m (resigned message) h = disconnected-Leaves t message m h
  with_resigned-Leaves give_up t m null_message h =
      if_lem (Leaves P) give_up (disconnected-Leaves t t.message m h) tt
  with_resigned-Leaves give_up t m resign_throws h = h

  -- What holds of a task that starts again, whatever its message, its connection and its request
  -- are, holds after a reset.
  pub reset-Leaves :
      (resigning : Option (Bytes → Resigned)) (t : Task) (m : Manager) (give_up : Bool)
      → P (restart give_up t)
      → Leaves P (reset resigning t m give_up)
  unfolding reset resign
  reset-Leaves none t m give_up h =
      disconnected-Leaves (restart give_up t) (restart give_up t).message m h
  reset-Leaves (some f) t m give_up h =
      let u = restart give_up t in
      if_lem (Leaves P) u.failure_code.http (with_resigned-Leaves give_up u m (f u.message) h)
        (disconnected-Leaves u u.message m h)
