-- ===== src/Kafka/Collect/Laws.antt =====
-- How often the metadata is refreshed.
use exporter_plus.Prelude.{true, false, ◌≡◌, arith}
use exporter_plus.Prelude.Int.{ℤ, ltb_ℤ, ◌≤ℤ◌, ◌+ℤ◌, IsInt64}
use exporter_plus.Prelude.Int.Laws.{add64_exact}
use exporter_plus.Kafka.Types.{Client, Exporter}
use exporter_plus.Kafka.Collect.{refreshed}

not_due : (a b : ℤ) → b ≤ℤ a → ltb_ℤ a b ≡ false
not_due a b h = ground arith

-- Once the metadata was refreshed, it is not again until the interval has passed: a collection at a
-- moment before its end, for which the sum does not overflow, leaves exporter and client alone.
pub refreshed_once :
    (now later : ℤ) (refresh refresh' : Client → Client) (e : Exporter) (client : Client)
    → ltb_ℤ e.next_metadata_refresh now ≡ true
    → IsInt64 (now +ℤ e.metadata_refresh_interval)
    → later ≤ℤ (now +ℤ e.metadata_refresh_interval)
    → refreshed later refresh' (refreshed now refresh e client).0 (refreshed now refresh e client).1
      ≡ ((refreshed now refresh e client).0, (refreshed now refresh e client).1)
unfolding refreshed
refreshed_once now later refresh refresh' e client due fits before =
    rw (due, add64_exact now e.metadata_refresh_interval fits)
      (rw (not_due (now +ℤ e.metadata_refresh_interval) later before))
