-- ===== src/Postgres/Exporter/Reload.antt =====
-- When checkMapVersions recalculates the maps of a server.
use exporter_plus.Prelude.{◌≡◌, false}
use exporter_plus.Prelude.Outcome.{Outcome}
use exporter_plus.Postgres.Servers.{Server}
use exporter_plus.Postgres.Exporter.{Exporter, World, is_nil}

module _ {V D F : Type 0} (w : World V D F) where
  -- The server has maps, and their version is, as semver compares them, the given one.
  abbrev pub IsFor : Server V D F → V → Type 0
  IsFor server version =
      (w.sv.ne version server.last_map_version ≡ false) × (is_nil server.metric_map ≡ false)

  -- The server has maps that were made for this very version.
  abbrev pub IsMade : Server V D F → V → Type 0
  IsMade server version = (server.last_map_version ≡ version) × (is_nil server.metric_map ≡ false)
