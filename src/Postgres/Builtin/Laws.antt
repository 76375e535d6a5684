-- ===== src/Postgres/Builtin/Laws.antt =====
-- The built-in table is a Go map of Go maps.
use exporter_plus.Prelude.{str_eq}
use exporter_plus.Prelude.GoMap.{lookup}
use exporter_plus.Postgres.Types.{Semver}
use exporter_plus.Postgres.Builtin.{builtin_metric_maps}
use exporter_plus.Postgres.DescMap.Laws.{IsTable}

pub builtin-IsTable :
    {V : Type 0} (F : Type 0) (sv : Semver V) → IsTable (builtin_metric_maps {F = F} sv)
unfolding builtin_metric_maps lookup str_eq
builtin-IsTable F sv = search tt depth 100
