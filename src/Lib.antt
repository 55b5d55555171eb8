-- ===== src/Lib.antt =====
-- buckytools: the tools that manage and rebalance a cluster of Graphite stores.
--
-- The program's parts. A store keeps each metric in a file of Graphite's database format, which the
-- package whisper reads and writes. A cluster spreads the metrics over its stores by a hash ring of
-- the package hashing: the daemon buckyd (cmd/buckyd) serves the metrics of one store over HTTP and
-- knows the ring, the client bucky (cmd/bucky) compares every metric's place with the ring's answer,
-- and moves the metrics that are not where they belong. The package fill merges two files of a metric
-- that is at two places, the package metrics maps names to paths.
--
-- What is modelled, file by file, with paths from the repository's root:
--
--   Hashing/Node       hashing/hashing.go: Node, NewNodeParser, NodeCmp, the three printed forms.
--     ParseInt         strconv.ParseInt at base 0, as NewNodeParser calls it.
--     RoundTrip        parsing what was printed.
--   Hashing/Ring       hashing/hashing.go: CarbonHashRing, insertRing, bisectLeft, bisectRight.
--     Insert, Sorted, Valid, Nearest, Owner, Remove, Buckets   its operations, one property each.
--     Walk, Rounds     GetNodes of both rings, and how many entries it has still to pass.
--     Hashers          the two ways to place a node: by MD5 (hashing.go) or by FNV1a (fnv1a.go).
--   Hashing/Fnv1a      hashing/fnv1a.go: FNV1aHashRing, the same ring at another hash.
--   Hashing/Jump       hashing/jump.go: Fnv1a64, XorShift, Jump and JumpHashRing.
--     Bounds, Nodes    the loop of Jump, and the ring's order and lookups.
--   Whisper/Bytes      whisper/whisper.go: packInt, unpackInt and their kin.
--   Whisper/Mod        mod, and Go's division, on integers of either sign.
--   Whisper/File       the bytes of an open file: what WriteAt and ReadAt do to them.
--   Whisper/Retention  Retention, its order, validateRetentions.
--   Whisper/RetentionDef   ParseRetentionDef, ParseRetentionDefs.  RoundTrip: what they read back.
--   Whisper/Archive    archiveInfo: where a time lies in an archive.
--   Whisper/Point      dataPoint and unpackDataPoints.
--   Whisper/Header     Create, Open, writeHeader, Size and MetadataSize.
--     Layout, RoundTrip   the file that Create writes, and Open of it.
--   Whisper/Update     Update, propagate, aggregate, readSeries.
--     Regions, Propagated, Database, Place, Lookup   the bytes that an Update changes, the archives
--                      that it chooses from, and the lookup of what it stored.
--     Created          the database that Create makes, for the theorems on Update and the fill.
--   Whisper/UpdateMany UpdateMany, archiveUpdateMany and what they call.
--     Extract, Upsert, Aligned, Place, Blocks   extractPoints, alignPoints, the places of whole steps,
--                      and the blocks of packSequences against single writes.
--     Window, Written, Stored, Within, Total   the places of neighbouring steps, the lookup of the
--                      points stored, and the writes of UpdateMany, which stay in the archives.
--   Whisper/Fetch      Fetch, StartTime, and the points of a TimeSeries.
--     Series, Steps, Stored, Updated   the points that are read, and the Fetch of a point that is
--                      stored.
--   Sparse             cmd/buckyd/util.go: copySparse, the copy that leaves holes for zeros.
--     Content          the bytes of the copy.
--     Rewrite          cmd/bucky-sparsify/main.go: examine and rewrite.
--   Metrics            metrics/metrics.go: names and paths of metrics, the filters, checkWalk.
--     Clean            path.Clean and path.Join of Go's library, which these call.
--     RoundTrip        a name from its path.
--     Cache            MetricsCacheType: RefreshCache by the steps of its goroutines.
--       Reader         GetMetrics, its reads of the cache between those steps.
--   Buckyd             cmd/buckyd/metrics.go: statMetric, deleteMetric, healMetric, serveMetrics.
--     Heal, Serve      what a POST leaves in the store, and what a request finds of earlier ones.
--     Inventory        listMetrics, over Metrics/Cache.
--   Relay              cmd/bucky-pickle-relay/main.go: the counters and reportMetrics.
--     Frames, Pieces, Stream   readSlice and handleConn, and the pickles of a connection.
--     Pickle, Lines    decodePickle, and the pickles that do not make it panic.
--     Batch            plainTextBatch.
--     Out, Delivery, Progress   plainTextOut and getRelayConnection, what they deliver, and when.
--   Bucky              cmd/bucky/common.go: the requests to the daemons, MetricEncode, MetricDecode.
--     Name             CleanMetric.  Name/Clean: what it gives.
--     Move             cmd/bucky/rebalance.go, cmd/bucky/backfill.go: their workers.
--       Exchange, Fetched, Posted, Safe   what a request brings, and what it and a move leave at both
--                      servers.
--     Inconsistent     cmd/bucky/inconsistent.go, cmd/bucky/locate.go, the jobs of rebalance.go.
--     Sound            what those jobs move, and where to.
--     Fetch            cmd/bucky/list.go: HTTPFetch and the merge of the lists.
--     Listing          cmd/bucky/list.go: the requests for lists, and listCommand.
--     Queues           the work of cmd/bucky/tar.go, backfill.go and stat.go.  Sound: what it is for.
--     Commands         deletes, totals, archives and backfills of the lists of all servers.
--     Workers          the workers of cmd/bucky/delete.go, du.go and restore.go.
--     Cluster          cmd/bucky/cluster.go, and parseRing and listHashring of cmd/buckyd.
--       Agree          isHealthy, and the rings of a healthy cluster.
--   Fill               fill/fill.go: fillArchive, OpenWSP, Files, All.
--     Gaps, Scan, Errors   the gaps of a series, the windows filled, and the errors returned.
--     Filled, Span, Windows, Complete   the fill of a window, the reach of a series, and OpenWSP.
--   Prelude            the numbers, lists, bits, texts and dictionaries that these share.
--
-- How state is modelled. A ring is a record of its entries, nodes and count of replicas; a method
-- with a pointer receiver is a function to the new record. An open database is a record of the file's
-- bytes and of the header's numbers; a function that writes to the file returns the new bytes. Where
-- the source panics, the result is `none`, or a constructor that says so. An error is a constructor.
-- A store is a dictionary from paths to files, a cluster one from the addresses of its daemons to their
-- stores: a request of Bucky goes through the handlers of Buckyd, and the network may lose it or its
-- answer. What the operating system, a connection or the network answers is an input, errors included.
-- Goroutines are steps of a relation in Metrics/Cache; elsewhere a worker is taken alone.
--
-- Numbers. Positions, sizes, offsets and retentions are natural numbers, hashes are reduced modulo
-- 2 ^ 32 or 2 ^ 64 where the source wraps, and an int that may be negative is an integer of
-- Prelude.Int. Values of type int are taken to stay within 63 bits. A float is its bit pattern: its
-- arithmetic is a parameter, the record Float64 of Hashing/Jump or Floats of Whisper/Update.
--
-- Loops. Those over a slice are structural. The loops of RemoveNode have the length of the slice as
-- fuel, that of Jump one more than the number of buckets, and Create's fill of zeros the number of
-- bytes; each is shown to be enough. GetNodes has as many rounds as the ring has entries, which is
-- shown to be enough unless it starts at the first entry. The loop of copySparse follows the
-- reader's answers.
--
-- handleConn has fuel for its turns, of which there is one more than there are pickles; the loop of
-- readSlice follows the pieces that arrive, that of plainTextOut the answers to its writes. CleanMetric
-- has the length of the key as fuel, which is shown to be enough, and plainTextBatch that of its slice.
--
-- What is not modelled. The MD5 sum and float arithmetic are parameters, as are JSON, snappy, the
-- decoder of pickles, regexp but for the expression of retentions, and net.SplitHostPort; time.Now
-- is an argument. Log lines and the texts of errors are left out, and the umask, which a new file's
-- mode takes to be 022. The bytes of the tar format, filepath.Walk and command lines are left out.
-- The commands bucky-fill, bucky-isempty, findhash and gentestmetrics, which call the packages
-- above, are not modelled. The package lock wraps flock(2), and vendor/ is other projects' code.
pub mod Prelude
pub mod Hashing
pub mod Whisper
pub mod Sparse
pub mod Metrics
pub mod Buckyd
pub mod Bucky
pub mod Relay
pub mod Fill
