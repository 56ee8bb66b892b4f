-- ===== src/Lib.antt =====
-- YCSB-C: a benchmark for key-value stores. A workload draws operations, keys and values; clients
-- run them against a database behind a common interface; `main` divides the work among threads.
--
-- Parts and files
--   Run                 how a run ends: in a value, or in an exception, a failed assertion, a call of
--                       exit, or undefined behaviour
--   Number              std::to_string, std::stoi and substr, of which the program makes and reads names
--   Utils               core/utils.h: FNVHash64, FNVHash32, Hash, StrToBool, Trim, RandomPrintChar
--   Properties          core/properties.h: GetProperty, SetProperty, operator[], Load
--   Platform            double, the random engines, rand() and the clock, which are
--                       parameters of everything else
--   Generator.*         core/*_generator.h, one module each; Scrambled has the skewed generator too
--   HashString          lib/string.h: hashed strings; HashString.Sdbm says what the hash is
--   StringHashtable     lib/string_hashtable.h: the interface of the hash tables and what it promises
--   Hashtable           lib/stl_hashtable.h, which lib/lock_stl_hashtable.h wraps in one lock
--   TbbHashtable        lib/tbb_rand_hashtable.h and lib/tbb_scan_hashtable.h over a container of TBB;
--                       TbbHashtable.Locks has their locks
--   Db                  core/db.h: the interface of the databases, a record of operations; Db.History
--                       has histories of calls, and models that a database implements
--   HashtableDb         db/hashtable_db.cc over any two tables behind StringHashtable; HashtableDb.Interface
--                       fills Db and has db/lock_stl_db.h, db/tbb_rand_db.h and db/tbb_scan_db.h
--   BasicDb             db/basic_db.h, with what it prints
--   BlockDb             the phase, the counters and the times that the databases on blocks share, and the
--                       number they read from a key; BlockDb.Ceph is db/ceph_db.h as it is compiled,
--                       BlockDb.CephFile the same file without MMAP, on a file stream,
--                       BlockDb.RealCeph db/real_ceph_db.h, BlockDb.Xihu db/xihu_db.h
--   XihuClient          db/xihu_client.h and db/xihu_common.h: reads and writes of blocks over RPC
--   RedisClient         redis/redis_client.h, over hiredis as a parameter
--   RedisDb             db/redis_db.h and .cc on that client; RedisDb.Served says what is documented of
--                       hiredis and of a server of hashes
--   Workload            core/core_workload.h and .cc; Workload.Init is CoreWorkload::Init
--   Client              core/client.h: DoInsert, DoTransaction and the five transactions
--   Ycsbc               ycsbc.cc: DelegateClient, the phases of main; Ycsbc.Interleaving has the
--                       threads of the loading phase in any order of their calls; Ycsbc.CommandLine has
--                       ParseCommandLine and db/db_factory.cc
--   Tests               runs and instances on a machine with plain numbers and engines
--
-- How the state is kept: an object is a record, passed in and out of each operation. A client holds
-- the workload with the states of chance (World) and the database. A std::string and a C string are
-- lists of byte codes; a uint64_t is a natural number with `% 2 ^ 64` written where the code can wrap.
-- An operation that holds a lock from its first line to its last is one step.
--
-- Bounds and fuel: two loops run on fuel. Nothing in the code bounds the rounds of NextTransactionKey;
-- one round is shown to be enough with the uniform distribution over inserted keys. For the last loop
-- of a mission of XihuClient, one round more than it has blocks is shown to be enough. Every other loop
-- is by the rounds left or by the list that it walks. Decimal texts have at most 20 digits, which a
-- uint64_t never exceeds.
--
-- What is left out: clock readings, of which only the results are passed in; printed output but for
-- the figures of HandleAllData and the lines of BasicDB; freed memory but for the races on keys and replies, and with it the
-- destructors; the interleaving of threads in the transaction phase of main, where they run one after
-- the other. The order in which an unordered_map iterates is the library's: new nodes come first
-- here, and Hashtable.Unordered has the tables up to their order. The calls of loading threads are
-- interleaved in Ycsbc.Interleaving, those of one shared counter in Generator.Counter.Threads, the
-- completions of requests in XihuClient and BlockDb.RealCeph.Completions, the calls of one table of TBB
-- in TbbHashtable.Locks. An access outside of the file in memory is undefined; what librados, librbd,
-- the RPC server, TBB and hiredis answer is passed in, and the RPC library puts an answer into the
-- buffer of its request before it calls back (XihuClient.deliver). An exception that the standard library
-- throws for a text of excessive length is left out. The vendored hiredis is not modelled.
mod Prelude
pub mod Run
pub mod Number
pub mod Utils
pub mod Properties
pub mod Platform
pub mod Generator
pub mod HashString
pub mod StringHashtable
pub mod TbbHashtable
pub mod Hashtable
pub mod Db
pub mod BasicDb
pub mod BlockDb
pub mod RedisClient
pub mod RedisDb
pub mod XihuClient
pub mod Workload
pub mod Client
pub mod Ycsbc
pub mod HashtableDb
mod Tests
