-- ===== src/Network/Config/Least.antt =====
-- The number of scheduler threads is the least that is enough.
use native.Mathlib.Nat.{div-lt_iff_lt-mul}
use myblob.Base.{ℕ, suc, ◌+◌, ◌-◌, ◌*◌, ◌/◌, ◌^◌, ◌≤◌, ◌<◌, ◌≡◌, ◌↔◌, ap, some, arith, ◌==◌, false}
use myblob.Base.Words.{add64, sub64}
use myblob.Network.Config.{Config, retrievers}

no_wrap : (n c : ℕ) → 0 < c → n + c < 2 ^ 64 → sub64 (add64 n c) 1 ≡ n + c - 1
no_wrap n c h b = ground arith

ceiling : (n c k : ℕ) → 0 < c → ((n + c - 1) / c ≤ k) ↔ (n ≤ c * k)
ceiling n c k h =
    let (to, from) = div-lt_iff_lt-mul {k = c} {x = n + c - 1} {y = suc k} h in
    (
      (λ l. let below = to (omega arith) in grind arith),
      (λ l.
          let below : n + c - 1 < suc k * c = grind arith in let less = from below in omega arith),
    )

-- For a positive throughput of a core, which together with the bandwidth stays below 2 ^ 64,
-- `retrievers` returns the least number of threads whose throughput reaches the bandwidth.
pub retrievers_least :
    (c : Config)
    → 0 < c.core_throughput
    → c.network + c.core_throughput < 2 ^ 64
    → (n : ℕ) × (retrievers c ≡ some n) × ((k : ℕ) → (n ≤ k) ↔ (c.network ≤ c.core_throughput * k))
unfolding retrievers
retrievers_least c h b =
    let test : (c.core_throughput == 0) ≡ false = ground arith in
    (
      (c.network + c.core_throughput - 1) / c.core_throughput,
      rw test (ap (λ x. some (x / c.core_throughput)) (no_wrap c.network c.core_throughput h b)),
      λ k. ceiling c.network c.core_throughput k h,
    )
