-- ===== src/Network/Config.antt =====
-- The number of scheduler threads and of requests: include/network/config.hpp.
pub mod Least
pub mod Tests
use myblob.Base.{ℕ, ◌+◌, ◌*◌, ◌/◌, ◌%◌, ◌^◌, ◌≡◌, Option, none, some, ◌==◌, if◌then◌else◌}
use myblob.Base.Words.{add64, sub64, mul64}

-- `core_concurrency` has 32 bits, the others 64.
pub record Config : Type 0 where
  pub core_throughput : ℕ
  pub core_concurrency : ℕ
  pub network : ℕ

abbrev pub default_core_concurrency : ℕ
default_core_concurrency = 20

abbrev pub default_core_throughput : ℕ
default_core_throughput = 8000

unfoldable pub bandwidth : Config → ℕ
bandwidth c = c.network

unfoldable pub core_requests : Config → ℕ
core_requests c = c.core_concurrency

-- `none` where the code divides by zero.
unfoldable pub retrievers : Config → Option ℕ
retrievers c =
    if c.core_throughput == 0
    then none
    else some (sub64 (add64 c.network c.core_throughput) 1 / c.core_throughput)

unfoldable pub total_requests : Config → Option ℕ
unfolding core_requests retrievers
total_requests c = elim (retrievers c) [ none ↦ none | some n ↦ some (mul64 n (core_requests c)) ]
