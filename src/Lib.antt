-- ===== src/Lib.antt =====
-- multicluster-global-hub: the core of the hub-of-hubs manager and of its agents.
--
-- The agents on the leaf hubs send bundles of status over a transport (Kafka or the sync service).
-- The manager conflates what arrives: it keeps, for each leaf hub and bundle type, the newest
-- bundle that was not written to the database yet (or the merged pack of deltas), hands bundles
-- out to database workers by priority and dependency, and commits to the transport what need not
-- be delivered again.
--
-- The parts and their files (paths below manager/pkg/statussyncer/transport2db unless said
-- otherwise):
--   Version                    pkg/bundle/status/bundle_version.go
--   Conflation.Bundles         bundle/bundle.go, conflator/dependency, bundle_sync_mode.go: what the
--                              conflator asks of a bundle, an interface (`BundleApi`)
--   Conflation.Heap            the metadata objects that are shared by pointers
--   Conflation.Info            conflator/complete_state_bundle_info.go, delta_state_bundle_info.go
--   Conflation.Units           conflator/conflation_unit.go: insert, GetNext, ReportResult are
--                              `insert_bundle`, `get_next`, `report_result`
--   Conflation.Manager         conflator/conflation_manager.go, ready_queue.go, the loops of
--                              syncer/dispatcher and db/workerpool
--   Compliance                 bundle/delta_compliance_status_bundle.go and helpers.go; its bundles
--                              implement `BundleApi` (Compliance.Bundles)
--   Commit.Kafka               transport/kafka/committer.go
--   Commit.SyncService         transport/syncservice/committer.go
--   StatusDb                   db/policy_cluster_sets.go and the reading of rows
--   StatusDb.Batches           db/postgresql/batch: base_batch_builder.go, policies_batch_builder.go
--   StatusDb.Handlers          syncer/dbsyncer/policies_db_syncer.go: the calls that the handlers make
--                              on the builder
--   StatusDb.Postgres          db/postgresql/postgresql.go: a batch on the compliance table, and the
--                              handlers as a whole
--   StatusDb.Minimal           the handler of the minimal compliance bundle, and what it runs on
--                              postgresql.go
--   Fragments                  pkg/kafka: kafka-producer cuts a payload into messages (Producer), and
--                              kafka-consumer assembles them (Collection, Assembler)
--   Agent.StatusBundle         agent/pkg/status/bundle/generic_status_bundle.go
--   Agent.StatusSync           agent/pkg/status/controller/generic: generic_status_sync_controller.go
--                              and bundle_collection_entry.go; Agent.Sends has them together
--   Agent.HybridSync           agent/pkg/status/controller/generic/hybrid_sync_manager.go
--   Spec.IntervalPolicy        manager/pkg/specsyncer/db2transport/intervalpolicy
--   Base                       shared names and lemmas; Examples: concrete inputs
--
-- Conventions. A call that dereferences nil, or an index out of range, is `none`. Go maps are
-- association lists. Pointers to metadata are addresses in a heap; a unit is named by its leaf hub,
-- as the ready queue holds pointers to units. Each method that holds a lock is one step, and an
-- interleaving is a sequence of steps (`ManagerStep`, `Reaches`). The counters of a bundle version
-- are only compared, so uint64 is read as natural numbers.
--
-- Texts of SQL are kept as statements with their placeholders. A batch of fewer than 13108 calls has
-- at most one statement of each kind but the deletion of clusters, which has one for each policy.
--
-- Fuel. The walk along dependencies has fuel, one more than the number of elements of the unit: a
-- walk visits no element twice where a dependency's priority is below that of the type that depends
-- on it, as policies_db_syncer.go registers them. The loop that cuts a payload has one more than the
-- payload's length, since each round takes at least one byte; a decimal number is written with one
-- more than its value.
--
-- Parameters. github.com/deckarep/golang-set is `SetApi`, with the laws that its documentation
-- states; github.com/cenkalti/backoff is `BackoffApi`; the Kafka client and the sync service client
-- are functions that say which requests succeed; times in headers go through `TimeFormat`.
-- PostgreSQL is `PostgresApi`: what each statement that the builders write does to a row of the
-- compliance table, that a statement with a wrong number of arguments is refused, and that the
-- statements of a batch are one transaction; its queries are taken to run, since the code drops the
-- error of a query and an error stands for a row that does not scan. `AggregatedApi` has the table of
-- aggregated compliance, where a query may fail. Examples.Databases and Examples.Minimals have
-- instances in memory.
-- Kubernetes' client is `ClientApi`, and the bundles of a controller are `SyncApi`.
--
-- Not modelled: logging, statistics, timers, the other Kubernetes controllers, REST
-- handlers, and the wire formats of the bundles.
pub mod Base
pub mod Version
pub mod Conflation
pub mod Compliance
pub mod Commit
pub mod Agent
pub mod StatusDb
pub mod Spec
pub mod Fragments
pub mod Examples
