-- ===== src/Lib.antt =====
-- Cachet keeps rows of a sharded database in a cache and answers reads at a chosen consistency
-- level. This library models the parts of it that make a cached answer correct.
--
-- How the parts interact. A write takes its version from the shard's hybrid logical clock, commits,
-- and leaves a tombstone of that version in the cache; the session's token advances to it. A read
-- goes to the cache first. What it finds there is served if the level of the request permits it;
-- otherwise a caller takes the key's lease, reads the clock, then the database, and fills the entry
-- by a compare-and-set that a tombstone or a newer entry defeats; the other callers wait with a
-- backoff. Keys are text, and their text names the row.
--
-- Which file models which part.
--   Storage/Hlc.antt: internal/storage/hlc.go. `new_version`, `physical_millis`, `logical` and `time`
--     are NewVersion and the accessors, `next`, `now` and `observe` the clock's methods. Wall time is
--     an argument, an integer of milliseconds; the mutex is the order of the calls (Storage/Hlc/Order
--     has sequences of calls); a panic of NewVersion is `none`.
--   Cache/Version.antt: internal/cache/version.go, the text that the scripts compare as strings.
--   Cache/Redis.antt: the server's commands, as a record of operations with their documented laws,
--     which each theorem on the scripts takes as a parameter; Cache/Model.antt is a concrete server
--     that satisfies them, on which the scripts are run.
--   Cache/Script.antt: the four scripts of internal/cache/lua, command by command.
--     Cache/Register.antt is what they implement, one register with a row or a tombstone.
--     Cache/Trace.antt has sequences of script runs on one key, between which the server may drop the
--     lease or the entry, and Cache/Lease the lease.
--   Consistency/Level.antt: pkg/consistency/level.go and proto.go, and the duration that the client in
--     pkg/cachet/cachet.go sends. Protobuf durations are a parameter.
--   Consistency/Token.antt: pkg/consistency/session.go. A Go map is an association list
--     (Base/Assoc.antt), and the order of the list is the order in which `range` goes through it.
--   Engine/Freshness.antt: internal/engine/freshness.go, AcceptEntry. Times are integers of
--     nanoseconds without the saturation of Go's time arithmetic.
--   Engine/Wait.antt: internal/engine/lease.go, the wait policy.
--   Schema/Key.antt: internal/schema/key.go, and the identifier pattern of internal/schema/schema.go.
--   Schema/Fits.antt: `fits` of internal/schema/key.go, with strconv's signed integers.
--   Schema/Value.antt: internal/schema/row.go, the reading of a column as an unsigned integer.
--   Storage/Shard.antt: internal/storage/shard.go, the shard of a key over the ring, and the batch by
--     shard. An index panic of the ring is an error.
--   Window.antt: the ring of time slices that internal/breaker/breaker.go and
--     internal/admission/sketch.go both roll, with any buckets. A reading of the clock is an argument
--     (`later` is the second reading, which a roll over the whole window takes), and `none` is the panic
--     of a division by a slice of zero.
--   Breaker.antt: internal/breaker/breaker.go, the breaker of a node and the group of them.
--     Breaker/Shed, Breaker/Latch and Breaker/Stale prove its laws.
--   Admission/Sketch.antt: internal/admission/sketch.go. Admission/Sketch/OverCount sets it against a
--     window of the same slices that keeps the keys themselves.
--   Admission/Policy.antt: internal/admission/policy.go, with the values of a reason for its text.
--   Admission/Controller.antt: internal/admission/controller.go. An element of container/list has an
--     address, which the map by key holds; Admission/Controller/Recency is the list of states that it
--     implements.
--   Sextant: pkg/sextant. Difference.antt is tier.go, Classify.antt verify.go, RecentKeys.antt keys.go,
--     Slo.antt slo.go (Slo/Figure counts its samples independently) and Verifier.antt verifier.go. What the origin, the cache, the key source and the
--     clock answer at a check is a record, `Sampled`, which the model takes as input; a callback and the
--     logs are left out. Verifier/Streak says what a check shows of its key.
--   Cdc.antt: internal/cdc, positions of checkpoint.go and the progress of tailer.go. How an
--     invalidation ends is an input (`Ending`), with the number of attempts that failed before;
--     Cdc/Checkpointed has sequences of positions, changed rows and saves.
--   Config.antt: the checks of internal/config/config.go by section, and what cmd/cachet/main.go makes of
--     the sections of the breaker and of admission.
--   HashRing.antt: internal/hashring/ring.go. The digest of hash/fnv, sort.Slice and sort.Search are
--     written out: insertion sort, and the first index that passes the test.
--   Base: the shared names, lists, byte strings, errors, integers, bits and decimal text. Base/Float.antt
--     is the interface of 64-bit floats, with the laws of IEEE arithmetic that a theorem uses, which
--     are limited to ratios of counts and to the numbers from zero to one where infinities fail them, and
--     Base/Float/Thousandths.antt a value of it, on which the witnesses run.
--
-- Bounds and fuel. A 64-bit number is a natural number whose wrap-around is written out. Decimal
-- text has fuel for 20 digits, which hold every number below 2^64. Every other loop is by recursion
-- on the list that it goes through, or on the number of its iterations.
--
-- Not modelled. The database, the network, metrics, the commands, the proxy, the generated interfaces,
-- benchmarks and deployment. Of the configuration, the addresses to listen on, the tables and the
-- order of the checks; of the tailer, the reading of a row event and the checkpoint's file; of the
-- verifier library, its tracer, its own configuration and the adapters. Nor are the encoding of rows
-- and the read and write paths of internal/engine. Concurrency is modelled by the order of atomic
-- steps: a mutex section, or a script.
pub mod Base
pub mod Consistency
pub mod Storage
pub mod Cache
pub mod Engine
pub mod Schema
pub mod HashRing
pub mod Window
pub mod Breaker
pub mod Admission
pub mod Sextant
pub mod Config
pub mod Cdc
