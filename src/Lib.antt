-- ===== src/Lib.antt =====
-- A model of exporter-plus, one program that serves the metrics of several databases and brokers to
-- Prometheus, and what holds of it.
--
-- The program registers a collector for each kind of server. A request for metrics calls the
-- collector's Collect, which asks the servers and sends what it learns as metrics: each with a
-- descriptor (a name, a help text, the names of its labels and its constant labels), a value and one
-- text for each label. Modelled are the three collectors that the repository itself writes for
-- PostgreSQL, Kafka and MongoDB, and the parts of the handlers that decide something.
--
-- Prelude and its children hold what the modules share: texts and the functions of the package
-- strings (Text), Go maps as association lists whose order is that of `range` (GoMap), the integers
-- and int64's wrap-around (Int), the three ways in which a Go function ends, with a value, an error
-- or a panic (Outcome), float64 and what prometheus refuses
-- as a parameter (Float) and metrics (Metrics).
--
-- Postgres models collector/postgres/collector.go and collector/postgres/pg_setting.go.
--   Types, Convert: ColumnUsage, ColumnMapping, MetricMap and dbToFloat64, dbToString.
--   Builtin, BuiltinQueries: the tables builtinMetricMaps and queryOverrides.
--   DescMap, Overrides, UserQueries: makeDescMap, makeQueryOverrideMap and addQueries, which give
--     the maps that a server is read by.
--   Namespace: queryNamespaceMapping, from the rows of an answer to metrics and errors.
--   Settings: querySettings with the units of pg_settings.
--   Version: parseVersion. Labels: parseConstLabels. Dsn: parseFingerprint and GetDataSources.
--   Servers: the pool of connections, NewServer, Ping and GetServer.
--   Exporter: checkMapVersions, which recalculates a server's maps when its version changes.
--   Scrape: Server.Scrape, scrapeDSN, scrape and Collect.
--   Setup: the options, NewPostgresExporter and Describe, and NewPostgresHandler of
--     handlers/postgreshandler.go with the requests that it then serves.
-- A server that the source shares by a pointer between the pool and its user is passed on and put
-- back (put_back). The packages sql, pq and semver are the parameters Driver and Semver, and stand
-- together with the file system in World.
--
-- Kafka models collector/kafka/collector.go and the label flag and descriptors of
-- handlers/kafkahandler.go.
--   Types, Gauges: the descriptors, the gauges sent, and the clients of sarama and kazoo at one
--     moment, which are parameters.
--   Config: CanReadCertAndKey and NewExporter. Descs: the descriptors.
--   Topics, Groups: getTopicMetrics and getConsumerGroupMetrics. Collect: Describe and Collect.
-- The goroutines are taken one after another; each sends its own gauges and writes its own topic's
-- entry of the map of offsets. The value of a gauge is the integer that the source converts with
-- float64(), and the offsets are int64 with their wrap-around. That prometheus refuses a descriptor of
-- Kafka, for a label that is not valid or is there twice, is left out.
--
-- Mongodb models collector/mongodb. Its gauges are global variables, which every export sets, collects
-- and sometimes resets; an Export is modelled as the list of its calls on them, which a panic may cut short.
--   Calls: the vectors, the calls, and the composition of the bodies; its children hold what is
--     proved of all traces: label values (Fits) and panics (Returns).
--   Registry: what the calls do, as an interface of operations and laws that stands for the package
--     prometheus; Lists is an instance. Stale: which values outlive an export.
--   Collector: mongodb_collector.go. Server: server_status.go, whose sections are in Metrics
--     (metrics.go), WiredTiger (wiredtiger.go), Locks (locks.go), Instance (asserts.go,
--     connections.go, cursors.go, extra_info.go, index_counters.go, memory.go, network.go,
--     op_counters.go) and Engine (background_flushing.go, durability.go, global_lock.go, tcmalloc.go,
--     storage_engine.go). The modules Gauges hold the vectors.
--   Databases, Collections, Pools, Top: database_status.go and profile_status.go, collection_status.go
--     and collection_wiredtiger.go, conn_pool_stats.go and conn_pool_stats_hosts.go, top_counters.go.
--   Oplog: oplog_status.go, with the session's answers as a parameter, by the number of the query.
--     Its one loop has two tries, which are the fuel, as in the source.
--   Tail: the loop of oplog_tail.go, as a step relation; gtm sends whenever it likes.
--   ReplSet: replset_status.go, as a specification with a Go map for each vector, and in its child
--     Calls as the calls, which Refines relates. ReplConf: replset_conf.go.
-- A field that the server leaves out is nil, an Option. The value of a gauge is the field, or the
-- integer that the source converts with float64().
--
-- Shared models collector/shared/connection.go and the loading of keys and certificates of
-- collector/shared/utils.go: how the session of the MongoDB collector is dialled.
--
-- Handlers models NewRedisHandler of handlers/redishandler.go (Redis), ParseMycnf, customizeTLS and the
-- collect[] filter of handlers/mysqldhandler.go (Mysqld), the TLS settings of
-- handlers/elasticsearchhandler.go (Elastic) and the options that handlers/mongodbhandler.go makes of its
-- flags (Mongodb), up to their calls of the packages that export the metrics, which are parameters.
-- Main models exporter-plus.go: which routes the program serves, with the constructors of the handlers
-- as parameters. The routes that the import of net/http/pprof adds are left out.
--
-- All other loops are structural recursion on the list that is ranged over, so that no fuel is
-- needed.
-- Log lines, mutexes and the duration of a scrape are left out, as are handlers/nodehandler.go, which
-- only calls a package under vendor, and those packages. An exit of the process by log.Fatal is a
-- panic in the model.
pub mod Prelude
pub mod Handlers
pub mod Kafka
pub mod Main
pub mod Mongodb
pub mod Postgres
pub mod Shared
