-- ===== src/Mongodb/Pools/Fits.antt =====
-- The label values of Pools: each export has as many as the labels.
use exporter_plus.Prelude.{String, refl, ◌&◌}
use exporter_plus.Mongodb.Calls.Fits.{IsFit, sequence-IsFit, deref-IsFit, All-IsFit-map}
use exporter_plus.Prelude.{Option}
use exporter_plus.Mongodb.Pools.{
  host_calls, export_conn_pool_stats, HostConnPoolStats, ConnPoolStats, export_host_conn_pool_stats,
}

pub export_host_conn_pool_stats-IsFit :
    {F : Type 0} (s : HostConnPoolStats F) (hostname : String)
    → IsFit (export_host_conn_pool_stats s hostname)
unfolding export_host_conn_pool_stats
export_host_conn_pool_stats-IsFit s hostname = refl

host_calls-IsFit :
    {F : Type 0} (host : String × Option (HostConnPoolStats F)) → IsFit (host_calls host)
host_calls-IsFit (hostname, stats) =
    deref-IsFit stats _ (λ s. export_host_conn_pool_stats-IsFit s hostname)

pub export_conn_pool_stats-IsFit :
    {F : Type 0} (s : ConnPoolStats F) → IsFit (export_conn_pool_stats s)
unfolding export_conn_pool_stats
export_conn_pool_stats-IsFit s =
    sequence-IsFit _ (refl & All-IsFit-map host_calls host_calls-IsFit s.hosts)
