-- ===== src/Network/HttpMessage/Loop.antt =====
-- The loop of `execute` in src/network/http_message.cpp.
use myblob.Base.{ℕ, zero, suc, Option, none, some}
use myblob.Base.Text.{Bytes}
use myblob.Network.ConnectionManager.{Manager}
use myblob.Network.HttpMessage.Task.{
  MessageState, Request, Task, Env, Outcome, continues, returns, throws,
}
use myblob.Network.HttpMessage.Sending.{Resigned, connect_stage, submit_send, send_stage}
use myblob.Network.HttpMessage.Receiving.{receive_more, receive_stage}

abbrev pub with_request : Option Request → (Request → Outcome) → Outcome
with_request none f = throws
with_request (some r) f = f r

-- The next round, where there is one.
abbrev pub and_then : Outcome → (Task → Manager → Outcome) → Outcome
and_then (continues t m) f = f t m
and_then (returns t m) f = returns t m
and_then throws f = throws

module _ (resigning : Option (Bytes → Resigned)) where
  -- One round of the loop in `execute`, in a given state.
  unfoldable pub round : MessageState → Env → Task → Manager → Outcome
  round MessageState.init env t m = connect_stage resigning env t m
  round MessageState.init_sending env t m = submit_send none t m
  round MessageState.sending env t m = with_request t.request λ r. send_stage resigning r t m
  round MessageState.init_receiving env t m = receive_more env t m
  round MessageState.receiving env t m =
      with_request t.request λ r. receive_stage resigning env r t m
  round _ env t m = returns t m

  -- `execute`, on fuel: at most `fuel` rounds.
  unfoldable pub execute : ℕ → Env → Task → Manager → Outcome
  execute zero env t m = continues t m
  execute (suc fuel) env t m = and_then (round t.state env t m) (λ t' m'. execute fuel env t' m')
