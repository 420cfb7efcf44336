-- ===== src/Lib.antt =====
-- Simple event broker: a log of records. Producers add batches of records to a topic and get an
-- offset for each; consumers read the records from an offset on, and wait for offsets that are not
-- there yet. A batcher puts the batches of several producers together, a topic stores every such
-- batch as one file in a backing storage and a copy of it in a cache, and the files carry an index
-- of their records.
--
-- The parts and their files. A Go function keeps its name, in lower case with underscores.
--   * Records.Batch: internal/sebrecords/batch.go. A batch is the slices of its sizes and of its
--     bytes; IsBatch says that the sizes add up to the bytes.
--   * Records.Bytes, Records.File: internal/sebrecords/records.go. A file is a list of bytes, an
--     io.Writer is a function on a state, and a reader is the file with a position.
--   * OffsetCond: internal/sebtopic/offsetcond.go. Callers hold a mutex, so a program is a sequence
--     of calls, and a channel is a number.
--   * Topic: internal/sebtopic/topic.go. Topic.Files has the interfaces to the backing storage, the
--     cache and the compression; Topic.Add has AddRecords, Topic.Read has ReadRecords and Metadata,
--     Topic.Open has New. Topic.Log has the view of a topic as one log of records,
--     and Topic.Store the laws of a store of files, and the runs of calls over such stores.
--     Topic.Memory: internal/sebtopic/memorystorage.go. Topic.S3: internal/sebtopic/s3storage.go, over
--     an interface of the S3 client. Topic.Disk: internal/sebtopic/diskstorage.go.
--   * Os: an interface of the operating system's files, with the laws that its documentation gives
--     and, in Os.Example, files in a list that keep them.
--   * Batcher: internal/sebbroker/blockingbatcher.go and nullbatcher.go. A run is a sequence of
--     events: a caller sends, the goroutine receives, the context ends, the batch is persisted and
--     the callers check what they are answered.
--   * Broker: internal/sebbroker/broker.go, over an interface of topics with their batchers.
--     Broker.Factories: internal/sebbroker/factories.go, the batchers over the AddRecords of a topic.
--   * Cache: internal/sebcache/cache.go, over an interface of its storage; Cache.Memory:
--     internal/sebcache/memorystorage.go and eviction.go; Cache.Disk: internal/sebcache/diskstorage.go,
--     over the files of Os. Cache.Files has the cache as that of a topic, and Cache.Serving puts the
--     topic, the cache with its evictions and the storages together. Names: Go's maps with
--     string keys, as association lists.
--   * Http: internal/httphandlers and internal/infrastructure/httphelpers. Http.Multipart has the
--     form data, Http.Params the query parameters, Http.Handlers the handlers, on an interface of
--     the broker, and Http.Guard the API key and the routes.
--   * Client: client.go, and internal/infrastructure/httphelpers/query.go. Client.Served puts the
--     client and the handlers together: what net/http does between them is an interface.
--   * Errors: seberr/errors.go, and the ways in which a call ends: a value, an error or a panic.
--     Wrapping an error with %w is not kept, since callers only ask for the wrapped sentinel.
--   * Exec: calls that change a state; what was changed before an error stays changed.
--   * Slice: Go's slices with length and capacity, on a backing array. Helpy: the functions of the
--     package go-helpy/slicey that the code calls, as an interface, with Helpy.Example an instance.
--   * Base: names of the library that all files share, lists and integers over the native numbers.
-- Modules called Tests run the code on concrete inputs. Topic.Example has a store that keeps its
-- files in a list.
--
-- Numbers: a uint32, a uint64 and a byte are natural numbers with the wrap-around written out as a
-- remainder; an int that can be negative is an integer. An int is not bounded, since lengths stay
-- far below 2^63. The fuel of a decimal number's digits is 20, which is enough for a uint64. The loop
-- over the pages of S3 takes fuel, of which more than there are pages is enough. All other loops are
-- by structural recursion.
--
-- Parameters: the storages, the cache and the compression of a topic, the clock (the time stamps of
-- the two files that AddRecords writes), the contexts, uint64y.FromString, sort.Slice, slicey
-- and the buffers of bytey, the client of the AWS SDK with its paginator, the packages os, path and
-- path/filepath with filepathy, and what the client uses of net/http, net/url, mime and encoding/json.
-- The laws of a store (Topic.Store) are what the storages document: a closed file is read back whole,
-- and a call for one key leaves the other files alone. They are asked for keys that name a file of
-- their own, since path.Join and filepath.Join give several keys one path. The laws of the disk
-- storage, of the disk cache and of the cache are in Topic.Disk.Laws, Cache.Disk.Laws and
-- Cache.Files, for an operating system whose named calls do not fail. The storage of a topic and that
-- of its cache are two states, since their directories are apart.
-- A compressing writer is taken as the error of its NewWriter, if there is one, and the function from
-- the bytes written to it to the bytes that reach the storage at its Close. A topic always has a cache: without one the code could not read.
--
-- Not modelled: logging; the data races that AddRecords leaves to the batcher to rule out; a send
-- on a full channel is an event that has to wait. The topic factory for S3, the command line, the
-- client's pool of buffers, which nothing uses, and the texts of the HTTP messages. encoding/json,
-- mime and mime/multipart are parameters or the list of a form's parts.
pub mod Base
pub mod Errors
pub mod Slice
pub mod Helpy
pub mod Records
pub mod OffsetCond
pub mod Exec
pub mod Topic
pub mod Batcher
pub mod Names
pub mod Os
pub mod Broker
pub mod Cache
pub mod Http
pub mod Client
