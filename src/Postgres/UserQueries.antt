-- ===== src/Postgres/UserQueries.antt =====
-- addQueries of collector/postgres/collector.go: namespaces from the user's query file.
pub mod Laws
use exporter_plus.Prelude.{String, Option, none, some, [], ◌∷◌, str_eq, if◌then◌else◌}
use exporter_plus.Prelude.GoMap.{GoMap, lookup, insert, range_insert}
use exporter_plus.Prelude.Outcome.{Outcome, ok, panic, ◌>>=◌}
use exporter_plus.Prelude.Float.{Float64}
use exporter_plus.Postgres.Types.{discard, ColumnMapping, MetricMapNamespace}
use exporter_plus.Postgres.Convert.{string_to_column_usage}
use exporter_plus.Postgres.DescMap.{make_desc_map}

-- What the package yaml unmarshals into an interface{}: a text, a sequence, a mapping, or another
-- value.
mutual
  pub data Yaml : Type 0 where
    str : String → Yaml
    sequence : Items → Yaml
    mapping : Entries → Yaml
    scalar : Yaml

  pub data Items : Type 0 where
    nil : Items
    cons : Yaml → Items → Items

  pub data Entries : Type 0 where
    end : Entries
    entry : Yaml → Yaml → Entries → Entries

-- the type assertions v.(string), v.([]interface{}) and v.(map[interface{}]interface{})
abbrev pub as_string : Yaml → Outcome String
as_string (str s) = ok s
as_string _ = panic "interface conversion"

abbrev pub as_sequence : Yaml → Outcome Items
as_sequence (sequence items) = ok items
as_sequence _ = panic "interface conversion"

abbrev pub as_mapping : Yaml → Outcome Entries
as_mapping (mapping entries) = ok entries
as_mapping _ = panic "interface conversion"

-- the two maps that are loaded
pub record Loaded (V F : Type 0) : Type 0 where
  pub metric_maps : GoMap (GoMap (ColumnMapping V F))
  pub overrides : GoMap String

module _ {V F : Type 0} where
  -- var columnMapping ColumnMapping
  abbrev pub zero_mapping : ColumnMapping V F
  zero_mapping = record {
    usage = discard;
    description = "";
    mapping = [];
    supported_versions = none;
  }

  -- the switch on the attribute's key
  unfoldable pub set_attribute : String → Yaml → ColumnMapping V F → Outcome (ColumnMapping V F)
  set_attribute key v c =
      if str_eq key "usage"
      then (do s ← as_string v; u ← string_to_column_usage s; ok (record c { usage = u }))
      else if str_eq key "description"
      then (do s ← as_string v; ok (record c { description = s }))
      else ok c

  -- the loop over the attributes of a column
  unfoldable pub attributes : Entries → ColumnMapping V F → Outcome (ColumnMapping V F)
  unfolding set_attribute
  attributes end c = ok c
  attributes (entry k v rest) c = do
    key ← as_string k
    c' ← set_attribute key v c
    attributes rest c'

  abbrev pub or_empty : Option (GoMap (ColumnMapping V F)) → GoMap (ColumnMapping V F)
  or_empty none = []
  or_empty (some m) = m

  -- the loop over the columns of one item of "metrics"
  unfoldable pub columns :
      String
      → Entries
      → GoMap (GoMap (ColumnMapping V F))
      → Outcome (GoMap (GoMap (ColumnMapping V F)))
  unfolding attributes
  columns metric end maps = ok maps
  columns metric (entry n a rest) maps = do
    let metric_map = or_empty (lookup metric maps)
    name ← as_string n
    attrs ← as_mapping a
    c ← attributes attrs zero_mapping
    columns metric rest (insert metric (insert name c metric_map) maps)

  -- the loop over the items of "metrics"
  unfoldable pub metrics :
      String
      → Items
      → GoMap (GoMap (ColumnMapping V F))
      → Outcome (GoMap (GoMap (ColumnMapping V F)))
  unfolding columns
  metrics metric nil maps = ok maps
  metrics metric (cons item rest) maps = do
    column ← as_mapping item
    maps' ← columns metric column maps
    metrics metric rest maps'

  -- the switch on a key of a namespace
  unfoldable pub one_spec : String → String → Yaml → Loaded V F → Outcome (Loaded V F)
  unfolding metrics
  one_spec metric key value l =
      if str_eq key "query"
      then (do
        query ← as_string value
        ok (record l { overrides = insert metric query l.overrides }))
      else if str_eq key "metrics"
      then (do
        items ← as_sequence value
        maps ← metrics metric items l.metric_maps
        ok (record l { metric_maps = maps }))
      else ok l

  unfoldable pub specs : String → Entries → Loaded V F → Outcome (Loaded V F)
  unfolding one_spec
  specs metric end l = ok l
  specs metric (entry k value rest) l = do
    key ← as_string k
    l' ← one_spec metric key value l
    specs metric rest l'

  -- the loop over the namespaces of the file
  unfoldable pub load : GoMap Yaml → Loaded V F → Outcome (Loaded V F)
  unfolding specs
  load [] l = ok l
  load ((metric, value) ∷ rest) l = do
    entries ← as_mapping value
    l' ← specs metric entries l
    load rest l'

-- The maps of a server that addQueries changes.
pub record Maps (F : Type 0) : Type 0 where
  pub metric_map : GoMap (MetricMapNamespace F)
  pub query_overrides : GoMap String

module _ {V F : Type 0} (fl : Float64 F) (unmarshal : String → Outcome (GoMap Yaml)) (version : V)
    (server_labels : GoMap String) where
  -- addQueries; the server is changed only where it succeeds
  unfoldable pub add_queries : String → Maps F → Outcome (Maps F)
  unfolding load
  add_queries content maps = do
    extra ← unmarshal content
    l ← load {V = V} {F = F} extra (record { metric_maps = []; overrides = [] })
    let partial = make_desc_map fl version server_labels l.metric_maps
    ok (record {
      metric_map = range_insert (λ k v. v) partial maps.metric_map;
      query_overrides = range_insert (λ k v. v) l.overrides maps.query_overrides;
    })
