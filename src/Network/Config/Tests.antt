-- ===== src/Network/Config/Tests.antt =====
-- The numbers for a concrete network.
use myblob.Base.{◌≡◌, refl, some}
use myblob.Network.Config.{Config, retrievers, total_requests, core_requests}

abbrev wide : Config
wide = record { core_throughput = 8000; core_concurrency = 20; network = 100000 }

wide_total : total_requests wide ≡ some 260
unfolding total_requests retrievers core_requests
wide_total = refl
