-- ===== src/Mongodb/Server/Complete.antt =====
-- When the export of a server status panics: where a pointer that is not tested for nil is nil.
use exporter_plus.Prelude.{Bool, true, ◌&&◌, ◌≡◌, refl, ◌∙◌, arith}
use exporter_plus.Mongodb.Calls.Returns.{
  has, if_any, has_with, returns, returns-sequence, returns-when, returns-deref,
  returns-when_always, returns-then_deref, returns-both_deref, returns-within_deref,
}
use exporter_plus.Mongodb.Instance.{
  export_asserts_stats, export_connection_stats, export_cursors, export_extra_info,
  export_index_counter_stats, export_mem_stats, export_network_stats, export_opcounters_stats,
  export_opcounters_repl_stats,
}
use exporter_plus.Mongodb.Locks.{export_lock_stats_map}
use exporter_plus.Mongodb.Engine.{
  export_flush_stats, DurStats, collect_dur_stats, export_dur_timing, export_dur_stats,
  export_tcmalloc_stats, export_storage_engine_stats, GlobalLockStats, export_queue_stats,
  export_client_stats, export_global_lock_stats,
}
use exporter_plus.Mongodb.Metrics.{
  MetricsStats, ReplStats, export_document_stats, export_get_last_error_stats,
  export_operation_stats, export_query_executor_stats, export_record_stats, export_apply_stats,
  export_buffer_stats, export_metrics_network_stats, export_preload_stats, export_repl_stats,
  export_storage_stats, export_ttl_stats, export_cursor_stats, export_metrics_stats,
}
use exporter_plus.Mongodb.WiredTiger.{
  WiredTigerStats, export_wt_block_manager_stats, export_wt_cache_stats,
  export_wt_transaction_stats, export_wt_log_stats, export_wt_session_stats,
  export_wt_concurrent_transactions_stats, export_wired_tiger_stats,
}
use exporter_plus.Mongodb.Server.{ServerStatus, storage_engine_of, export_server_status}

module _ {F : Type 0} where
  abbrev pub is_complete_lock : GlobalLockStats F → Bool
  is_complete_lock g = has g.current_queue && has g.active_clients

  abbrev pub is_complete_repl : ReplStats F → Bool
  is_complete_repl r =
      has_with r.apply (λ a. has a.batches)
      && (has r.buffer
          && (has_with r.network (λ n. has n.get_mores)
              && has_with r.preload_stats (λ p. has p.docs && has p.indexes)))

  abbrev pub is_complete_metrics : MetricsStats F → Bool
  is_complete_metrics m =
      if_any m.get_last_error (λ g. has g.wtime)
      && (if_any m.repl is_complete_repl && if_any m.cursor (λ c. has c.open_cursors))

  abbrev pub is_complete_wired_tiger : WiredTigerStats F → Bool
  is_complete_wired_tiger w = if_any w.concurrent_transactions (λ c. has c.read && has c.write)

  -- where each section that is reported has the parts that it always has
  abbrev pub is_complete : ServerStatus F → Bool
  is_complete s =
      if_any s.global_lock is_complete_lock
      && (if_any s.metrics is_complete_metrics && if_any s.wired_tiger is_complete_wired_tiger)

  returns-export_global_lock_stats :
      (g : GlobalLockStats F) → returns (export_global_lock_stats g) ≡ is_complete_lock g
  unfolding export_global_lock_stats export_queue_stats export_client_stats
  returns-export_global_lock_stats g =
      returns-sequence _
      ∙ ground (
        arith,
        returns-deref g.current_queue export_queue_stats (λ _. true) (λ _. refl),
        returns-deref g.active_clients export_client_stats (λ _. true) (λ _. refl),
      )

  returns-export_repl_stats : (r : ReplStats F) → returns (export_repl_stats r) ≡ is_complete_repl r
  unfolding export_repl_stats export_apply_stats export_buffer_stats export_metrics_network_stats
      export_preload_stats
  returns-export_repl_stats r =
      returns-sequence _
      ∙ ground (
        arith,
        returns-deref r.apply export_apply_stats (λ a. has a.batches)
            (λ a. returns-then_deref _ a.batches _ (λ _. refl)),
        returns-deref r.buffer export_buffer_stats (λ _. true) (λ _. refl),
        returns-deref r.network export_metrics_network_stats (λ n. has n.get_mores)
            (λ n. returns-then_deref _ n.get_mores _ (λ _. refl)),
        returns-deref r.preload_stats export_preload_stats (λ p. has p.docs && has p.indexes)
            (λ p. returns-both_deref p.docs p.indexes _ _ (λ _. refl) (λ _. refl)),
      )

  returns-export_metrics_stats :
      (m : MetricsStats F) → returns (export_metrics_stats m) ≡ is_complete_metrics m
  unfolding export_metrics_stats export_document_stats export_get_last_error_stats
      export_operation_stats export_query_executor_stats export_record_stats export_storage_stats
      export_ttl_stats export_cursor_stats
  returns-export_metrics_stats m =
      returns-sequence _
      ∙ ground (
        arith,
        returns-when_always m.document export_document_stats (λ _. refl),
        returns-when m.get_last_error export_get_last_error_stats (λ g. has g.wtime)
            (λ g. returns-deref g.wtime _ (λ _. true) (λ _. refl)),
        returns-when_always m.operation export_operation_stats (λ _. refl),
        returns-when_always m.query_executor export_query_executor_stats (λ _. refl),
        returns-when_always m.record_stats export_record_stats (λ _. refl),
        returns-when m.repl export_repl_stats is_complete_repl returns-export_repl_stats,
        returns-when_always m.storage export_storage_stats (λ _. refl),
        returns-when_always m.ttl export_ttl_stats (λ _. refl),
        returns-when m.cursor export_cursor_stats (λ c. has c.open_cursors)
            (λ c. returns-then_deref _ c.open_cursors _ (λ _. refl)),
      )

  returns-export_wired_tiger_stats :
      (w : WiredTigerStats F) → returns (export_wired_tiger_stats w) ≡ is_complete_wired_tiger w
  unfolding export_wired_tiger_stats export_wt_block_manager_stats export_wt_cache_stats
      export_wt_transaction_stats export_wt_log_stats export_wt_session_stats
      export_wt_concurrent_transactions_stats
  returns-export_wired_tiger_stats w =
      returns-sequence _
      ∙ ground (
        arith,
        returns-when_always w.block_manager export_wt_block_manager_stats (λ _. refl),
        returns-when_always w.cache export_wt_cache_stats (λ _. refl),
        returns-when_always w.transaction export_wt_transaction_stats (λ _. refl),
        returns-when_always w.log export_wt_log_stats (λ _. refl),
        returns-when_always w.session export_wt_session_stats (λ _. refl),
        returns-when w.concurrent_transactions export_wt_concurrent_transactions_stats
            (λ c. has c.read && has c.write)
            (λ c. returns-within_deref c.read c.write _ _ (λ _ _. refl)),
      )

  returns-export_dur_stats : (d : DurStats F) → returns (export_dur_stats d) ≡ true
  unfolding export_dur_stats export_dur_timing collect_dur_stats
  returns-export_dur_stats d = returns-sequence _

-- Export of a server status returns exactly if the global lock, where it is reported, has its queue
-- and its clients; the metrics, where they are, have the waiting time of getLastError, all parts of
-- the replication and the open cursors, each where its section is reported; and WiredTiger's
-- concurrent transactions, where they are, have both kinds. Else it panics.
pub returns-export_server_status :
    {F : Type 0} (s : ServerStatus F) → returns (export_server_status s) ≡ is_complete s
unfolding export_server_status export_asserts_stats export_flush_stats export_connection_stats
    export_extra_info export_index_counter_stats export_network_stats export_opcounters_stats
    export_opcounters_repl_stats export_tcmalloc_stats export_mem_stats export_lock_stats_map
    export_cursors export_storage_engine_stats
returns-export_server_status s =
    returns-sequence _
    ∙ ground (
      arith,
      returns-when_always s.asserts export_asserts_stats (λ _. refl),
      returns-when_always s.dur export_dur_stats returns-export_dur_stats,
      returns-when_always s.background_flushing export_flush_stats (λ _. refl),
      returns-when_always s.connections export_connection_stats (λ _. refl),
      returns-when_always s.extra_info export_extra_info (λ _. refl),
      returns-when s.global_lock export_global_lock_stats is_complete_lock
          returns-export_global_lock_stats,
      returns-when_always s.index_counter export_index_counter_stats (λ _. refl),
      returns-when_always s.network export_network_stats (λ _. refl),
      returns-when_always s.opcounters export_opcounters_stats (λ _. refl),
      returns-when_always s.opcounters_repl export_opcounters_repl_stats (λ _. refl),
      returns-when_always s.tcmalloc_stats export_tcmalloc_stats (λ _. refl),
      returns-when_always s.mem export_mem_stats (λ _. refl),
      returns-when_always s.locks export_lock_stats_map (λ _. refl),
      returns-when s.metrics export_metrics_stats is_complete_metrics returns-export_metrics_stats,
      returns-when_always s.cursors export_cursors (λ _. refl),
      returns-when s.wired_tiger export_wired_tiger_stats is_complete_wired_tiger
          returns-export_wired_tiger_stats,
      returns-when_always (storage_engine_of s.storage_engine s.background_flushing)
          (export_storage_engine_stats {F = _}) (λ _. refl),
    )
