-- ===== src/Lib.antt =====
-- go-shardblob is a content-addressed object store: an object is split into chunks, each chunk is
-- stored once under its digest, a manifest lists the chunks of an object, an index counts the uses
-- of each object, a table counts the references to each chunk, and a collector removes the chunks
-- that nothing refers to. This library models its parts as functions and proves what they do.
--
-- The parts and their files:
--
--  * internal/hashx: Hashx.antt. An identifier is the list of its bytes. The digest functions of the
--    Go library are a parameter (Algo.digest); a hash in progress is the bytes written to it.
--    Hashx/Ids.antt (id.go, EqualID) has their text, order and comparison, Hashx/Registry.antt
--    (algo.go) the registry, over any folding of names.
--  * internal/chunk: Chunk/Policy.antt (policy.go), Chunk/Gear.antt (cdc.go), Chunk/Splitter.antt
--    (splitter.go). Chunk/Reader.antt is the io.Reader that the splitter reads from: the bursts in
--    which the bytes arrive, and the way they end, so a reader may deliver its bytes in any pieces.
--    Chunk/Splitter/Reference.antt is the cut of a whole content, which the splitter is compared with.
--    Chunk/Assembler.antt (assembler.go, measure.go) puts pieces together, over any io.Writer.
--  * internal/manifest: Manifest.antt (types.go, validate.go) and Manifest/Codec.antt (codec.go).
--  * internal/blobstore: Blobstore.antt (backend.go, check.go) has the interface Backend and its laws;
--    Blobstore/Memory.antt (memory.go) is the backend in memory, which Blobstore/Laws.antt shows to
--    be lawful.
--  * internal/refcount: Refcount.antt (table.go). The journal is an interface, which may refuse.
--    Refcount/Log.antt (journal.go) is the journal in a file, whose writes may stop short or fail, with
--    its replay; Refcount/Log/Codec.antt, Replay.antt, Follows.antt, Recovery.antt and Once.antt follow a record
--    from the call to the replay. Refcount/Snapshot.antt (snapshot.go) is the table as a file.
--  * internal/index: Index.antt (index.go) and Index/Snapshot.antt (snapshot.go). The clock is an
--    argument. Base/Snapshot.antt has the frame that the two snapshots share.
--  * internal/layout: Layout.antt (paths.go, atomic.go) has the paths and WriteAtomic, over Files.antt, which
--    has the files with a list of how the next calls of the operating system go; Layout/Settings.antt (config.go) is the
--    configuration. Layout/Paths.antt is about paths, Layout/Whole.antt about writes.
--    Base/FilePath.antt is filepath.Clean, Dir and Join.
--  * The backend on disk: Blobstore/Disk.antt (disk.go), and Blobstore/Disk/Walk.antt for OpenDisk,
--    recount and List; Blobstore/Disk/Calls.antt and Refines.antt compare it with the one in memory.
--  * Store/Opening.antt: options.go, OpenMemory (store.go) and PutBytes (put.go). Store/OnDisk.antt: Open
--    and persist of a store on disk (store.go), LoadConfig and SaveConfig (config.go), over a parameter
--    for the JSON text; Store/OnDisk/Calm.antt follows its files while nothing fails, and
--    Store/OnDisk/Reopened.antt opens a store again, Store/OnDisk/Twice.antt after a persist that stopped.
--    Store/Opening/Asked.antt says what options ask for.
--  * internal/verify and verify.go: Verify.antt and Store/Verifying.antt. Verify/Intact.antt says what
--    an intact object is, Store/Checked.antt joins Put and Verify.
--  * internal/iofence: Iofence.antt (fence.go, object.go), a list of goroutines and a step relation;
--    Iofence/Exclusion.antt is about the fence, Iofence/Objects.antt, OneHolder.antt and Drain.antt
--    about the locks of the objects, and Iofence/Moving.antt about lists of goroutines.
--  * internal/gc: Gc.antt (collector.go, safety.go), over any backend, and Gc/Mark.antt
--    (MarkLive in safety.go).
--  * store.go, put.go, get.go, delete.go, stats.go, mem.go: Store.antt (Put), Store/Read.antt (Get and
--    the other reads), Store/Remove.antt (Delete, GC, Close), over any Backend and any Media.
--    Store/Medium.antt has the interface Media, for manifests, journal and snapshots, its laws, and
--    the medium of a store in memory. Store/Pieces.antt, Store/Described.antt and Store/PutGet.antt
--    follow Put; Store/Reading.antt follows the reader; Store/RoundTrip.antt, Store/Again.antt,
--    Store/Collected.antt and Store/Deleted.antt put them together.
--  * Base.antt and its children: lists, byte strings, maps, results, bits, and the wire format of
--    integers with CRC-32. Tests.antt: runs at concrete inputs.
--
-- Conventions. An integer is a natural number; a field of w bits keeps its wrap-around (% 2 ^ w), and
-- the sizes of a policy, which are signed in Go, are taken as 0 where Go has a negative one, which
-- Normalize treats alike. An error is a constructor of Base.Result.Error. A map is an association
-- list; where Go iterates over a map, the order is a parameter that may only permute. A lock is not
-- modelled where one operation holds it from start to end. A call of the operating system that fails
-- changes nothing, but a Write may have written some bytes; paths are those of a Unix system. A temporary
-- file has its bytes and what Sync has brought to the disk, and the directories are those that MkdirAll
-- made. An algorithm is not nil.
--
-- Fuel. next_cdc runs on one round more than the reader has bytes and bursts left, and split_all on
-- one round more than there are bytes: each round of the former takes a burst or a byte, and each
-- piece of the latter has a byte, so neither runs out. put has the fuel of split_all, and get_bytes
-- takes its fuel as an argument: more than the object has bytes is enough, as each read brings one.
--
-- The replay of a journal runs on one round more than there are bytes, and each round takes 52.
--
-- Not modelled: Put, Get and Delete are not instantiated with the files of a store on disk. The
-- operations of the store follow one another; what the fence and the locks guarantee for those that
-- overlap is shown for the locks alone. The streaming Sink of internal/hashx and FanoutOK of
-- internal/layout are not modelled. The pool of buffers only recycles memory.
pub mod Base
pub mod Hashx
pub mod Blobstore
pub mod Refcount
pub mod Index
pub mod Gc
pub mod Chunk
pub mod Manifest
pub mod Store
pub mod Verify
pub mod Iofence
pub mod Files
pub mod Layout
pub mod Tests
