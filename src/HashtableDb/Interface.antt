-- ===== src/HashtableDb/Interface.antt =====
-- `HashtableDB` as a `DB`, and the three databases that choose its tables. It keeps the empty bodies
-- of `Init`, `Close`, `HandleAllData` and `FinalFlushDisk` of core/db.h.
use ycsb_c_copy.Db.{Db}
use ycsb_c_copy.Hashtable.Table.{stl_table}
use ycsb_c_copy.HashtableDb.{Tables, KeyHashtable, read, scan, update, insert, delete}
use ycsb_c_copy.Prelude.{[], Bytes}
use ycsb_c_copy.Hashtable.{Hashtable}
use ycsb_c_copy.Run.{ok}
use ycsb_c_copy.TbbHashtable.Rand.{rand_table}
use ycsb_c_copy.TbbHashtable.Scan.{scan_table}
use ycsb_c_copy.TbbHashtable.{ConcurrentMap}

abbrev pub hashtable_db : Tables → Db
hashtable_db 𝒯 = record {
  State = KeyHashtable 𝒯;
  init = λ flag s. ok s;
  read = read 𝒯;
  scan = scan 𝒯;
  update = update 𝒯;
  insert = insert 𝒯;
  delete = delete 𝒯;
  close = λ s. ok s;
  handle_all_data = λ s. ok s;
  final_flush_disk = λ s. ok s;
}

-- db/lock_stl_db.h
abbrev pub lock_stl_tables : Tables
lock_stl_tables = record {
  fields = stl_table Bytes;
  keys = stl_table (Hashtable Bytes);
  new_field_hashtable = [];
}

abbrev pub lock_stl_db : Db
lock_stl_db = hashtable_db lock_stl_tables

-- db/tbb_rand_db.h and db/tbb_scan_db.h, by the containers for the field tables and the key table and
-- an empty container for fields.
module _ (ℱ : ConcurrentMap Bytes) (𝒦 : ConcurrentMap ℱ.Map) (new : ℱ.Map) where
  abbrev pub tbb_rand_tables : Tables
  tbb_rand_tables = record { fields = rand_table ℱ; keys = rand_table 𝒦; new_field_hashtable = new }

  abbrev pub tbb_rand_db : Db
  tbb_rand_db = hashtable_db tbb_rand_tables

  abbrev pub tbb_scan_tables : Tables
  tbb_scan_tables = record { fields = scan_table ℱ; keys = scan_table 𝒦; new_field_hashtable = new }

  abbrev pub tbb_scan_db : Db
  tbb_scan_db = hashtable_db tbb_scan_tables
