-- ===== src/Mongodb/Locks/Fits.antt =====
-- The label values of Locks: each export has as many as the labels.
use exporter_plus.Prelude.{refl, each}
use exporter_plus.Prelude.GoMap.{GoMap}
use exporter_plus.Mongodb.Calls.Fits.{IsFit, all_fit-append, all_fit-each}
use exporter_plus.Mongodb.Locks.{LockStats, lock_calls, export_lock_stats_map}

pub export_lock_stats_map-IsFit :
    {F : Type 0} (locks : GoMap (LockStats F)) → IsFit (export_lock_stats_map locks)
unfolding export_lock_stats_map lock_calls
export_lock_stats_map-IsFit locks =
    all_fit-append (each lock_calls locks) _ (all_fit-each lock_calls (λ _. refl) locks) refl
