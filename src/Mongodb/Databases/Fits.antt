-- ===== src/Mongodb/Databases/Fits.antt =====
-- The label values of Databases: each export has as many as the labels.
use exporter_plus.Prelude.{String, refl, ◌&◌}
use exporter_plus.Mongodb.Calls.Fits.{IsFit, sequence-IsFit, deref-IsFit, All-IsFit-map}
use exporter_plus.Prelude.{List, [], ◌∷◌, Option}
use exporter_plus.Mongodb.Databases.{
  RawStatus, shard_calls, status_calls, export_database_status, RawStatus, DatabaseStatus,
  ProfileStatus, export_profile_status,
}

pub export_profile_status-IsFit :
    (F : Type 0) (s : ProfileStatus) → IsFit (export_profile_status {F = F} s)
unfolding export_profile_status
export_profile_status-IsFit F s = refl

shard_calls-IsFit :
    (F : Type 0) (shard : String × Option RawStatus) → IsFit (shard_calls {F = F} shard)
shard_calls-IsFit F (shard, stats) = deref-IsFit stats _ (λ _. refl)

status_calls-IsFit :
    (F : Type 0) (s : DatabaseStatus) (shards : List (String × Option RawStatus))
    → IsFit (status_calls {F = F} s shards)
status_calls-IsFit F s [] = refl
status_calls-IsFit F s (x ∷ xs) =
    sequence-IsFit _ (All-IsFit-map shard_calls (shard_calls-IsFit F) (x ∷ xs))

pub export_database_status-IsFit :
    (F : Type 0) (s : DatabaseStatus) → IsFit (export_database_status {F = F} s)
unfolding export_database_status
export_database_status-IsFit F s = sequence-IsFit _ (status_calls-IsFit F s s.shards & refl & tt)
