-- ===== src/Mongodb/Top/Fits.antt =====
-- The label values of Top: each export has as many as the labels.
use exporter_plus.Prelude.{refl, each}
use exporter_plus.Prelude.GoMap.{GoMap}
use exporter_plus.Mongodb.Calls.Fits.{IsFit, all_fit-append, all_fit-each}
use exporter_plus.Mongodb.Top.{TopStats, top_calls, export_top_stats_map}

pub export_top_stats_map-IsFit :
    {F : Type 0} (tops : GoMap (TopStats F)) → IsFit (export_top_stats_map tops)
unfolding export_top_stats_map top_calls
export_top_stats_map-IsFit tops =
    all_fit-append (each top_calls tops) _ (all_fit-each top_calls (λ _. refl) tops) refl
