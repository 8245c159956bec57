-- ===== src/Network/HttpMessage/Borrowed.antt =====
-- A result that is received into memory the caller lends.
use myblob.Base.{
  ℕ, suc, ◌+◌, ◌-◌, ◌≤◌, ◌<◌, ◌≡◌, refl, ap, ◌∙◌, false, Option, none, some, arith, leb, min, ok,
  err,
}
use myblob.Base.Text.{Bytes}
use myblob.Utils.DataVector.{DataVector, owned, reserve, resize, not_owned}
use myblob.Network.HttpHelper.{Info}
use myblob.Network.ConnectionManager.{Manager}
use myblob.Network.HttpMessage.Task.{MessageState, try_again, Task, Env, throws, on_ok}
use myblob.Network.HttpMessage.Sending.{Resigned}
use myblob.Network.HttpMessage.Receiving.{submit_recv, receive_more, grow, grow_for, receive_stage}
use myblob.Network.HttpMessage.Loop.{with_request, and_then, round, execute}

resize_same :
    (v : DataVector ℕ) (size : ℕ) → size ≡ v.size → v.size ≤ v.capacity → resize 0 v size ≡ ok v
unfolding resize
resize_same v size e h = ground arith

resize_beyond :
    (v : DataVector ℕ) (size : ℕ)
    → owned v ≡ false
    → v.capacity < size
    → resize 0 v size ≡ err not_owned
unfolding resize reserve owned
resize_beyond v size o h = ground arith

submit_recv_beyond :
    (env : Env) (n : ℕ) (t : Task) (m : Manager)
    → owned t.data_vector ≡ false
    → t.data_vector.capacity < t.data_vector.size + n
    → submit_recv env n t m ≡ throws
unfolding submit_recv
submit_recv_beyond env n t m o h =
    rw (resize_beyond t.data_vector (t.data_vector.size + n) o h) refl

receive_more_beyond :
    (env : Env) (t : Task) (m : Manager)
    → owned t.data_vector ≡ false
    → t.data_vector.size ≡ t.data_vector.capacity
    → t.receive_buffer_offset < t.data_vector.capacity
    → 0 < t.chunk_size
    → receive_more env t m ≡ throws
unfolding receive_more
receive_more_beyond env t m o full l c =
    let test : leb t.data_vector.capacity t.receive_buffer_offset ≡ false = ground arith in
    rw (o, test)
      (submit_recv_beyond env (min t.chunk_size (t.data_vector.capacity - t.receive_buffer_offset))
        t m o (omega arith))

grow_for_borrowed :
    (i : Option Info) (env : Env) (t : Task) (m : Manager)
    → owned t.data_vector ≡ false
    → grow_for i env t m ≡ receive_more env t m
unfolding grow_for
grow_for_borrowed none env t m o = refl
grow_for_borrowed (some i) env t m o = rw o refl

-- A message receives into memory that the caller lends, all of which is reserved for the request
-- under way, with bytes still missing. Where that request comes back with `EAGAIN`, an exception
-- escapes from `execute`.
pub try_again_throws :
    (resigning : Option (Bytes → Resigned)) (fuel : ℕ) (env : Env) (t : Task) (m : Manager)
    (fd : Option ℕ)
    → t.state ≡ MessageState.receiving
    → t.request ≡ some (record { length = try_again; fd = fd })
    → owned t.data_vector ≡ false
    → t.data_vector.size ≡ t.data_vector.capacity
    → t.receive_buffer_offset < t.data_vector.capacity
    → 0 < t.chunk_size
    → execute resigning (suc fuel) env t m ≡ throws
unfolding execute round receive_stage grow
try_again_throws resigning fuel env t m fd s r o full l c =
    let beyond = grow_for_borrowed t.info env t m o ∙ receive_more_beyond env t m o full l c in
    let same =
      resize_same t.data_vector
        (t.receive_buffer_offset + (t.data_vector.size - t.receive_buffer_offset)) (omega arith)
        (omega arith) in
    ap (λ q. and_then (round resigning q env t m) (λ t' m'. execute resigning fuel env t' m')) s
    ∙ ap
        (λ q.
          and_then (with_request q λ r. receive_stage resigning env r t m)
            (λ t' m'. execute resigning fuel env t' m'))
        r
    ∙ ap
        (λ q.
          and_then (on_ok q λ v. grow env (record t { data_vector = v }) m)
            (λ t' m'. execute resigning fuel env t' m'))
        same
    ∙ ap (λ q. and_then q (λ t' m'. execute resigning fuel env t' m')) beyond
