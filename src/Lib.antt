-- ===== src/Lib.antt =====
-- A model of the core of nexgo, a library of service components in Go, with the theorems that make
-- it correct. Numbers are the native ℕ, Go's int, int64 and time.Duration are ℤ (Base/Integers), and
-- a string is the list of its character codes (Base/Strings).
--
-- The parts, and the files that model them:
--
-- * ch, the batch writer for ClickHouse. Write puts rows into an unbounded channel; one goroutine,
--   processLoop, collects them by table and hands buffers to flush; flush inserts each table's batch
--   with retries, reports to a metrics hook and hands rows that are given up to a callback; an
--   insertion looks up the table's columns in a cache, converts each row and sends the batch.
--   - Ch/Error: ch/errors.go and the classifications isSchemaRelatedError and isRetryableError of
--     ch/writer.go. A foreign error is the answers of errors.As and errors.Is about it.
--   - Ch/Env: the driver, the clock and the callbacks as parameters, over a state of the world `W`.
--   - Ch/Writer/Config: WriterConfig of ch/config.go, its defaults and its checks.
--   - Ch/Writer/Loop: processLoop (`process_loop`, one turn of the select is `turn`), shouldFlush and
--     drainChannel. What the select receives is a list of events, each with the time of the turn.
--   - Ch/Writer/System: Write and Close beside processLoop, with the unbounded channel as a queue;
--     Ch/Writer/System/Reach is the relation of all their interleavings.
--   - Ch/Writer/Flush: flush, with the loop over the attempts (`insert_attempts`, `settle`), the
--     report and the callback (`conclude`). A table's loop is given MaxRetries + 1 rounds, which is
--     the bound of its for statement.
--   - Ch/Writer/Store: the cache (`get_table_columns`, `refresh_table_schema`) and the insertion
--     (`batch_insert`, `do_batch_insert`, `insert_rows`).
--   - Ch/Converter: ch/converter.go. Value has the Go values that the converters tell apart; Scalar
--     and Other have the converters, Column the types of columns with Column/Default for their
--     defaults, Evaluate the default functions, and Columns the choice of a converter, the zero
--     values, and getColumnValue and convertValue of ch/writer.go. unwrapTypeModifiers runs on fuel,
--     the length of the text, of which each round takes off a prefix. Container has MapConverter and
--     ArrayConverter: Container/Types is the types and values of Go that they meet, with what else
--     they use of reflect as the record `Reflection`, Container/Coerce is coerceTo, and
--     Container/Elements is convertElem, buildMap and buildSlice, by recursion on the type.
--     Container/Columns is getColumnValue over these values, for the columns of all types.
--   - Ch/Client: ch/client.go. Its operations are steps in any order, each with the driver's answer;
--     Writer is two steps, since it gives its lock back in between.
-- * kafka, the consumer. Kafka/Config: ConsumerConfig of kafka/config.go. Kafka/Consume:
--   handlerMessage and consumeLoop of kafka/consume.go, over the list of what Poll returns.
--   Kafka/Consumer: NewConsumer, Start and Close of kafka/consumer.go with their instances.
--   Kafka/Stats: parseStatsLag of kafka/stats.go, which the loop calls for its hook.
--   Kafka/Connect: validateKafkaCluster of kafka/validate.go and NewProducer, with the answer to each
--   attempt as an argument; their loops are given the three rounds of their for statements.
--   Kafka/Settings: the BuildConfigMap methods of kafka/config.go.
--   Kafka/Producer: Produce, the delivery reports and Close of kafka/producer.go; the goroutine and
--   the caller of Close share the done channel; of the goroutine for a failure callback there is
--   the start only.
-- * dlq, the recorder of failed records: Dlq/Recorder has Record, loop, produce and Close of
--   dlq/recorder.go; in Dlq/Recorder/Conservation they interleave as the steps of a relation.
-- * health, the probes: Health has Run, runCheck and Handler of health/health.go. The goroutines of
--   Run finish in an order that is an argument.
-- * db, the settings of the databases: Db/Settings is db/base_config.go, Db/Mysql db/config.go and
--   Db/Postgres db/postgres_config.go, each with its connection string. Db/Postgres/Reading reads
--   such a string by the documented grammar, one setting for each unit of fuel.
-- * cache, the cache that is filled from a source: Cache/Config is cache/config.go, Cache/Sync
--   syncWithRetry and NewSyncableCache of cache/syncable_cache.go, whose loop has max_retries rounds.
--   Cache/Sync/Lifecycle has Start in two halves, Stop and the periodic goroutines, which a panic
--   of the source ends, as events in any order; what a synchronisation answers is given with them.
-- * cron, chains of tasks: Cron has cron/manager.go, cron/middleware.go and cron/shared_data.go. A task
--   is a function on a context, which has the world, the data shared in a chain, and the log.
-- * routine, goroutines that recover from panics: Routine has the Runner and the package's functions of
--   routine/routine.go.
-- * metrics, observations: Metrics/Flushes has OnFlush of metrics/chmetrics/chmetrics.go, which the
--   writer's flush calls as its hook; Metrics/Requests has RED of metrics/middleware.go, each request
--   being taken up and left in a step of its own; Metrics/Registry has metrics/registry.go, over the
--   registry of Prometheus.
-- * logger, the global logger: Logger has logger/config.go, New of logger/logger.go and the sections of
--   getGlobalLogger of logger/global.go as steps, counting the calls at each.
--
-- Calls of packages that are not in the repository (the ClickHouse driver, the Kafka client, floats,
-- decimals, times, encoding/json) are parameters: Ch/Env, the records `Env` of Kafka/Consume and
-- Dlq/Recorder, and `Library` of Ch/Converter/Value. What a theorem needs of them is a record of
-- laws among its hypotheses: Logs, Quiet, Wire and Documented.
--
-- Not modelled: log lines, but for what Cron and Routine record of them, and the other metrics adapters;
-- the opening of the databases' connections, the Redis client and the scheduler of cron jobs, which
-- only pass on to their libraries.
pub mod Base
pub mod Cache
pub mod Ch
pub mod Cron
pub mod Db
pub mod Dlq
pub mod Health
pub mod Kafka
pub mod Logger
pub mod Metrics
pub mod Routine
