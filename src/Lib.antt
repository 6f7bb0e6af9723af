-- ===== src/Lib.antt =====
-- Models and proofs for MedvedDB's platform library, its row predicates and its storage.
--
-- MedvedDB is a distributed database. Its nodes keep rows in LMDB, exchange transaction logs and
-- filter rows with bytecode that a small stack machine runs. All of it stands on a platform library
-- of containers and algorithms. This development models that library's core, the predicates, the
-- set of objects that a node stores, its transaction log, and the job that applies the log.
--
-- Which file models which part (paths from the repository's root):
--   Stack        mdv_platform/generic/mdv_stack.h: the macros, as functions on a record with the
--                capacity and the items; a null pointer is `none`.
--   Vm           mdv_platform/mdv_vm.h and mdv_vm.c. Vm.Machine is the byte stack with the memory
--                that pointers reach, and a state and error monad; Vm.Datum the datum and
--                mdv_vm_stack_push, _pop, _top; Vm.Ops the mdv_vmop_ functions and
--                mdv_vm_result_as_bool; Vm.Run the loop of mdv_vm_run. Vm.Program describes the
--                instructions apart from their bytes.
--   Queue        mdv_platform/generic/mdv_queue.h and mdv_queue.c: the ring buffer, as a record
--                with head, tail and an item for each slot.
--   Vector       mdv_platform/generic/mdv_vector.c: the growing array with its reference count.
--   Bitset       mdv_platform/generic/mdv_bitset.c, on 32-bit words.
--   Algorithm    mdv_platform/generic/mdv_algorithm.c: mdv_diff_u32, mdv_union_u32, mdv_exclude and
--                mdv_lower_bound.
--   Hashmap      mdv_platform/generic/mdv_hashmap.c: a list of chains, each a list of items.
--   Hash, Bloom  mdv_platform/generic/mdv_hash.c and mdv_bloom.c.
--   Rollbacker   mdv_platform/mdv_rollbacker.c: undo operations over a state.
--   Predicate    mdv_storage/mdv_predicate.c, on Vector and Vm.
--   Operators    mdv_storage/ops/mdv_select.c and mdv_project.c, on any source of rows, and
--                mdv_scan_seq.c, a source that walks through an enumerator.
--   Storage      mdv_storage/mdv_lmdb.c (Storage.Lmdb) and mdv_2pset.c (Storage.TwoPSet): transactions
--                and maps, and the two-phase set of objects on them. Storage.Session is the frame of
--                a transaction that the functions share, Storage.Sets the set that is promised,
--                Storage.Objects the enumerator of the objects, Storage.Memory a
--                storage in memory, and Storage.Limited one that refuses sizes as LMDB does.
--   TrLog        mdv_core/storage/mdv_trlog.c: the transaction log, on Storage.Lmdb.
--   Committer    mdv_core/mdv_committer.c: the requests of one log and the job that applies it, as
--                steps of two threads.
--   Types        mdv_types/mdv_field.c and mdv_datum.c: field types, and a value with its type.
--   Safeptr      mdv_platform/mdv_safeptr.c: a counted pointer under a mutex.
--   Base         shared notation, Boolean tests, lists, little-endian bytes and binary digits.
-- The operations keep the names of the C functions without their prefix `mdv_` and the component.
--
-- How the parts interact: the machine of Vm pushes and pops bytes on a Stack; a Predicate keeps its
-- bytecode in a Vector and gives the machine the table of its functions; an operator of Operators
-- calls its source through a table of functions, and so does the scan the enumerator of the stored
-- objects; the Committer applies a TrLog; Bloom takes its positions from Hash.
-- Storage and TrLog call LMDB through the record Storage.Lmdb.Lmdb; its documented behaviour is the
-- record Documented, and Sound says that no call of it meets an error. Where a theorem does not ask
-- for Sound, transactions may fail to start or to commit, maps to open, writes and deletions to be
-- done, and a cursor that starts at a key to go on; looking up a key and walking through a map meet
-- no error in a usable transaction. A write with a key or a value of a size that LMDB does not take
-- is refused and leaves the transaction as it was.
--
-- Conventions. Numbers are natural numbers, and the wrap-around of a machine word is written out
-- where the code can reach it. Memory that an allocator grants or refuses is a parameter of the
-- operation, a Boolean or a function of the number of bytes. A pointer that may be null is an
-- Option. A call that the C standard leaves undefined is a value of its own: `division_by_zero` in
-- Hashmap, `outside` in Algorithm and Types. Reference counts are counted by one thread at a time.
--
-- Fuel. mdv_vm_run takes one unit of fuel for an instruction, the growth loop of mdv_vector.c 64
-- rounds, as many as a positive capacity can double in a 64-bit word, and the search loop of
-- mdv_lower_bound the number of items, which every round makes smaller.
--
-- Not modelled: system calls, threads and memory orders; the vendored libraries under
-- mdv_thirdparty; the generated SQL parser and the language bindings; the network, the client, the
-- replication of nodes and their tables (mdv_net, mdv_api, the rest of mdv_core), the opening of
-- storage files, and the serialization of rows; of the platform library the linked list, B-tree,
-- spanning tree, topology, router, LRU cache and event bus.
pub mod Base
pub mod Stack
pub mod Vm
pub mod Queue
pub mod Vector
pub mod Bitset
pub mod Algorithm
pub mod Hashmap
pub mod Hash
pub mod Bloom
pub mod Rollbacker
pub mod Predicate
pub mod Operators
pub mod Storage
pub mod TrLog
pub mod Committer
pub mod Types
pub mod Safeptr
