-- ===== src/Tests/Loads.antt =====
-- Records and how they are loaded.
use ycsb_c_copy.Client.Loading.{Holds, counted, do_insert-Holds}
use ycsb_c_copy.Client.{Client, do_insert}
use ycsb_c_copy.Db.{KvPair}
use ycsb_c_copy.Hashtable
use ycsb_c_copy.Hashtable.Lookup.{view}
use ycsb_c_copy.HashtableDb.Fields.{Record}
use ycsb_c_copy.HashtableDb.Interface.{lock_stl_db, lock_stl_tables}
use ycsb_c_copy.HashtableDb.Instances.{lock_stl_tables-AreTables}
use ycsb_c_copy.HashtableDb.Refinement.{IsValid, contents, key_of, set_record}
use ycsb_c_copy.HashtableDb.{KeyHashtable}
use ycsb_c_copy.Number.{to_string}
use ycsb_c_copy.Prelude.Int.{pos}
use ycsb_c_copy.Prelude.{
  ℕ, ◌+◌, ◌*◌, ◌/◌, ◌%◌, ◌≡◌, ◌<◌, refl, true, List, [], none, some, codes, arith, ◌++◌, Bytes,
}
use ycsb_c_copy.Run.{ok}
use ycsb_c_copy.Tests.Machine.{machine, machine_draws, small_workload, small_world, small_client}
use ycsb_c_copy.Tests.Tables.{empty-IsValid}
use ycsb_c_copy.Workload.Names.{key_index, build_key_name-ok, build_key_name-real_key}
use ycsb_c_copy.BlockDb.{real_key}
use ycsb_c_copy.Workload.Values.{AreFields, CanFill, moved, build_values-AreFields}
use ycsb_c_copy.Workload.{Generator, build_key_name, build_values}
use ycsb_c_copy.Ycsbc.Loading.{CanLoad, Loaded}
use ycsb_c_copy.Ycsbc.Threads.{phase-Loaded}
use ycsb_c_copy.Ycsbc.{phase}
use ycsb_c_copy.Ycsbc.Loading.{fewer, IsLoaded}
use ycsb_c_copy.Ycsbc.Interleaving.Outcome.{interleaved-Steps, interleaved-Loaded, can_finish}
use ycsb_c_copy.Ycsbc.Interleaving.Sums.{total, calls_of, oks_of}
use ycsb_c_copy.Ycsbc.Interleaving.{Thread, Step, Steps, none_yet, started}
use ycsb_c_copy.Ycsbc.RecordKeys.{record_key}
use ycsb_c_copy.Prelude.{◌≤◌, equal, false}

small_world-CanFill : CanFill machine machine_draws (small_world true 0)
small_world-CanFill = tt

small_client-CanLoad :
    CanLoad machine machine_draws lock_stl_tables lock_stl_tables-AreTables 0 3
      (small_client true 0)
unfolding view Hashtable.find
small_client-CanLoad = record {
  ordered = refl;
  counter_is = refl;
  room = omega arith;
  small = omega arith;
  fields_fit = omega arith;
  named = (refl, tt);
  fill = tt;
  valid = empty-IsValid;
  absent = λ j lo hi. refl;
}

-- Two threads share three records: one record each, and one is left out.
phase-Loaded_example :
    (c' : Client machine lock_stl_db) × (phase machine lock_stl_db 0
        (pos 2)
        (pos 3)
        true
        (small_client true 0)
      ≡ ok (2 * (3 / 2), c'))
    × Loaded machine machine_draws lock_stl_tables lock_stl_tables-AreTables 0
        (2 * (3 / 2))
        (small_client true 0)
        c'
    × (2 * (3 / 2) + 3 % 2 ≡ 3)
phase-Loaded_example =
    phase-Loaded machine machine_draws lock_stl_tables lock_stl_tables-AreTables 0 0 3 2
      (small_client true 0) (omega arith) small_client-CanLoad

build_values-AreFields_example :
    (es : List KvPair) × (g : Generator machine) × (e : ℕ) × (c : ℕ) × (build_values machine
        (small_world true 0)
      ≡ ok (es, moved machine machine_draws (small_world true 0) g e c))
    × CanFill machine machine_draws (moved machine machine_draws (small_world true 0) g e c)
    × AreFields 2 0 es
build_values-AreFields_example =
    build_values-AreFields machine machine_draws (small_world true 0) small_world-CanFill

build_key_name-real_key_example :
    (key : Bytes) × (build_key_name machine (small_workload true 0) 7 ≡ ok key)
    × (real_key key ≡ ok (pos (key_index true 3 7)))
    × (key_index true 3 7 < 3)
build_key_name-real_key_example =
    build_key_name-real_key machine (small_workload true 0) 7 (omega arith) (omega arith)

first_key : build_key_name machine (small_workload true 0) 0 ≡ ok (codes "user" ++ to_string 0)
first_key = build_key_name-ok machine (small_workload true 0) 0 (omega arith)

absent_key :
    contents lock_stl_tables lock_stl_tables-AreTables []
      (key_of (codes "t") (codes "user" ++ to_string 0))
    ≡ none
unfolding view Hashtable.find
absent_key = refl

do_insert-Holds_example :
    (es : List KvPair) × (r : Record) × (g : Generator machine) × (e : ℕ) × (cr : ℕ)
    × (db : KeyHashtable lock_stl_tables) × (do_insert machine lock_stl_db (small_client true 0)
        ≡ ok (
          true,
          record {
            world = moved machine machine_draws (counted machine (small_world true 0)) g e cr;
            db = db;
          },
        ))
    × CanFill machine machine_draws
        (moved machine machine_draws (counted machine (small_world true 0)) g e cr)
    × IsValid lock_stl_tables lock_stl_tables-AreTables db
    × (contents lock_stl_tables lock_stl_tables-AreTables db
        ≡ set_record
            (contents lock_stl_tables lock_stl_tables-AreTables [])
            (key_of (codes "t") (codes "user" ++ to_string 0))
            (some r))
    × AreFields 2 0 es
    × Holds r es
do_insert-Holds_example =
    do_insert-Holds machine machine_draws lock_stl_tables lock_stl_tables-AreTables
      (small_client true 0) (codes "user" ++ to_string 0) small_world-CanFill (omega arith)
      empty-IsValid first_key absent_key

two_rounds-CanLoad :
    CanLoad machine machine_draws lock_stl_tables lock_stl_tables-AreTables 0
      (2 * 1)
      (small_client true 0)
two_rounds-CanLoad =
    fewer machine machine_draws lock_stl_tables lock_stl_tables-AreTables 0 0 3 (2 * 1)
      (small_client true 0) refl (omega arith) small_client-CanLoad

interleaved-Steps_example :
    (c : Client machine lock_stl_db) × (ts : List Thread) × Step machine lock_stl_db
      (small_client true 0)
      (started 2 1)
      c
      ts
    × (total calls_of (started 2 1) ≡ total calls_of ts + 1)
interleaved-Steps_example =
    interleaved-Steps machine machine_draws lock_stl_tables lock_stl_tables-AreTables 0 2 1
      (small_client true 0) (small_client true 0) (started 2 1) two_rounds-CanLoad none_yet
      (omega arith)

-- A whole run of the two threads.
finished :
    (c : Client machine lock_stl_db) × (ts : List Thread) × Steps machine lock_stl_db
      (small_client true 0)
      (started 2 1)
      c
      ts
    × (total calls_of ts ≡ 0)
finished =
    can_finish machine machine_draws lock_stl_tables lock_stl_tables-AreTables 6 0 2 1
      (small_client true 0) (small_client true 0) (started 2 1) two_rounds-CanLoad none_yet refl

interleaved-Loaded_example :
    (total oks_of finished.1 ≡ 2 * 1)
    × ((j : ℕ)
        → 0 ≤ j
        → j < 0 + 2 * 1
        → IsLoaded 2 (
            contents lock_stl_tables lock_stl_tables-AreTables finished.0.db
              (record_key (codes "t") j)))
    × ((q : Bytes)
        → ((j : ℕ) → 0 ≤ j → j < 0 + 2 * 1 → equal (record_key (codes "t") j) q ≡ false)
        → contents lock_stl_tables lock_stl_tables-AreTables finished.0.db q
          ≡ contents lock_stl_tables lock_stl_tables-AreTables [] q)
interleaved-Loaded_example =
    interleaved-Loaded machine machine_draws lock_stl_tables lock_stl_tables-AreTables 0 2 1
      (small_client true 0) finished.0 finished.1 two_rounds-CanLoad finished.2 finished.3
