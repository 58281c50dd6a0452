-- ===== src/Lib.antt =====
-- mirador-core: a model of the parts of the server that carry its own logic.
--
-- The server answers queries over metrics, logs and traces, keeps definitions of KPIs, finds the root
-- cause of incidents, and talks to language models. Modelled are the parts below; each is a folder of
-- modules, the definitions in files called Defs or by the name of what they define, the theorems in
-- files named for what they prove, and runs and instances of the theorems in Tests.
--
--   Rca/ServiceGraph  internal/rca/topology.go. A graph is a record of the edge map, the adjacency lists
--     and the node set; AddEdge is add_edge, which rebuilds the lists by rebuild_indexes. IsUpstream runs
--     hasPath, a depth-first search (has_path), ShortestPath a breadth-first one (bfs_loop). Both run on
--     fuel: the number of nodes and a little more is enough, since a search marks what it visits, and
--     the theorems on them say that they return. sort.Slice is insertion by the same order.
--   Rca/TimeRing  internal/rca/time_ring.go. An instant is a count of nanoseconds; time.Time.Sub keeps
--     its saturation (Prelude/Int). The two loops of SortByProximity are exchange_sort and exchange_pass.
--   Rca/Dimensions  internal/rca/dimension_config.go and config_merge.go. A float64 is a value of an
--     interface (Floats) with the comparison and the constants that the code uses; the order of a loop
--     over a map is an argument where the result shows it. It reads the KPIs of Kpi/Definition.
--   Rca/Grouping  internal/rca/candidates.go and grouping.go. A group is a record, a float64 a value of the
--     interface Scores; the map of groups is an association list on keys of four parts, and the quotient
--     of a bucket rounds towards zero as Go's does.
--   Rca/Events  internal/rca/anomaly_event.go, enriched_anomaly_event.go and anomaly_event_mapper.go. A
--     float64 is a value of the interface Numbers, which extends Scores by the arithmetic that the code
--     applies; of the order only what holds with NaN too is assumed. The attributes of telemetry, of any
--     type in Go, are a data type of truth values, numbers, texts and others.
--   Rca/Chain  internal/rca/incident_context.go and models.go. Instants are of one location. The
--     sentences of a summary, which fmt prints, are a parameter (Wording).
--   Rca/Scoring  internal/rca/scoring.go and dimension_scorer.go. RankCandidateCauses is
--     rank_candidate_causes; sorting again by the score alone, which the engine and the bias both do, is
--     rank_anew. The candidates, which the code changes in place, are values.
--   Rca/Detector  internal/rca/incident_detector.go. A position in the series is a sample with those that
--     follow it; the minimal duration, which the code tests in an empty branch, is not read.
--   Rca/Labels  internal/rca/label_detector.go.
--   Rca/Collect  internal/rca/incident_anomaly_collector.go and service.go. The provider of anomalies is a
--     function that answers with an error or a list.
--   Rca/Engine  internal/rca/engine.go. ComputeRCA is compute_rca, over analyze_incident; the chain of a
--     candidate is build_chain_for_candidate, along the path that the service graph finds;
--     ComputeRCAByTimeRange is compute_rca_by_time_range, and the correlation engine that it asks is a
--     parameter. Sorting, numbering and taking the root cause, with which both end, is conclude.
--     Rca/Samples holds the inputs of the tests.
--   Kpi  internal/services/kpi_validation.go, the fields of internal/models/kpi.go that it reads. Each
--     numbered check of ValidateKPIDefinition is a function check_*; strings.ToLower and
--     strings.TrimSpace are parameters. Uuid reads a text as code points with their widths in bytes.
--     Identity is internal/services/kpi_id.go.
--   Mira/Session  internal/mira/session/session.go. Each method takes the clock's readings as arguments;
--     Ensure is split where it changes its lock.
--   Sync  internal/sync/kpi_sync_worker.go. The repository of MariaDB and the vector store are
--     interfaces; a cycle (run_sync) maps the worker and the vector store to new ones. Store and Fields
--     are CreateOrUpdateKPI and kpiEqual of internal/weavstore/kpi_store.go, over the objects that
--     Weaviate holds. Loop cuts the cycles and the loops of Start and TriggerSync into the steps between
--     which other goroutines run; Counting, Supervision and Draining are about them.
--   Errors  pkg/errors/errors.go. An error is a chain of wrappers and AppErrors; errors.As is find_app.
--   Cache  pkg/cache/valkey_noop.go (Noop) and internal/services/runtime_feature_flags.go (Flags). Bytes are
--     texts and JSON is a parameter that reads back; the flags use any cache that returns what was
--     stored, and Tests fills that interface with the cache in memory.
--   Uql  the query language. Syntax, Validate and Parse are internal/models/unified_query_language.go, Optimizer and
--     Plan internal/services/uql_optimizer.go, Translate internal/services/uql_translator.go. A pass of the
--     optimizer maps a query and the counts to new ones, and run_passes is their loop. The builders of plans
--     append steps under the number that they carry; float64 costs are values of an interface (Costs). A
--     translator is a record of its two methods, and the registry is the list of them. The texts of
--     values, durations and numbers are parameters (Formats); nil pointers are options, and reading one
--     that is nil is the outcome panicked. The parser keeps its positions in bytes; what trims, changes
--     case and reads numbers is a parameter (TextLibrary). The recursion of conditions runs on fuel, one more
--     than the bytes of the text; where changing case keeps the length of texts, more gives the same. Pipeline joins the parser, the
--     optimizer and the planner.
--   Prelude  what these share: names of the libraries, Boolean tests, Go's maps as association lists with
--     the laws of a read after a write, integers, sorting, and the measure of a search.
--
-- Not modelled: the clients of VictoriaMetrics, Weaviate, MariaDB, Valkey and of language models, the
-- HTTP server, logging and telemetry, which are input and output; printing; the builder of the service
-- graph, which reads the rows of such a client; and the correlation engine, the engine that runs
-- queries, the resolver of KPIs, the switch between caches and the middleware, which are mostly calls of
-- the clients. Loops that a goroutine runs on a ticker are their single rounds, but for those of the
-- sync worker. A Go map has distinct keys; a theorem that needs this of a map it is given says so.
pub mod Cache
pub mod Errors
pub mod Kpi
pub mod Mira
pub mod Prelude
pub mod Rca
pub mod Sync
pub mod Uql
