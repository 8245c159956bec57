-- ===== src/Cloud/Transaction/Sync.antt =====
-- The rounds of `processSync` in src/cloud/transaction.cpp. The scheduler and the network are the
-- parameter `schedule`: the callbacks that `sendReceiverHandle.processSync` runs in a round, in
-- their order, each with the answer to its message. The callbacks are those of the messages of the
-- round: that is the hypothesis `Served`.
pub mod Orders
pub mod Rounds
pub mod Once
pub mod NoParts
use mathlib.Core.List.{Permᴰ}
use myblob.Base.{
  ℕ, zero, suc, Bool, true, false, Option, none, some, List, [], ◌∷◌, ◌++◌, map, ◌==◌,
  if◌then◌else◌, length,
}
use myblob.Cloud.Transaction.Model.{
  Provider, Callback, no_callback, Message, Transaction, Answer, Notice,
}
use myblob.Cloud.Transaction.Uploads.{on_finished}
use myblob.Cloud.Transaction.Process.{submit_round}

abbrev pub Schedule : Type 0
Schedule = ℕ → List (Option Message) → List (Callback × Answer)

abbrev pub callback_of : Option Message → Callback
callback_of none = no_callback
callback_of (some m) = m.callback

abbrev pub first : Callback × Answer → Callback
first (c, a) = c

unfoldable pub Served : Schedule → Type 0
Served schedule =
    (n : ℕ) (ms : List (Option Message)) → Permᴰ (map callback_of ms) (map first (schedule n ms))

module _ (p : Provider) where
  unfoldable pub finish_all : List (Callback × Answer) → Transaction → Transaction × List Notice
  finish_all [] t = (t, [])
  finish_all ((c, a) ∷ cs) t =
      let (t1, ns) = on_finished p c a t in let (t2, more) = finish_all cs t1 in (t2, ns ++ more)

  unfoldable pub sync_round : Schedule → ℕ → Transaction → Transaction × List Notice
  sync_round schedule n t = let (ms, t') = submit_round t in finish_all (schedule n ms) t'

  abbrev pub prepend :
      List Notice → Option (Transaction × List Notice) → Option (Transaction × List Notice)
  prepend ns none = none
  prepend ns (some (t, more)) = some (t, ns ++ more)

  -- The loop, on fuel: `none` where the fuel does not last. `n` is the number of the round.
  unfoldable pub process_sync : Schedule → ℕ → ℕ → Transaction → Option (Transaction × List Notice)
  process_sync schedule zero n t = none
  process_sync schedule (suc fuel) n t =
      let (t', ns) = sync_round schedule n t in
      let rest = process_sync schedule fuel (suc n) t' in
      if length t'.multipart_uploads == t'.completed_multiparts
      then some (t', ns)
      else prepend ns rest
