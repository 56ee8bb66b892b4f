-- ===== src/HashtableDb/Agreement.antt =====
-- The three databases on hash tables answer alike.
use mathlib.Core.Path.{fun_ext}
use ycsb_c_copy.Db.History.{Call, Reply, perform_all, replies}
use ycsb_c_copy.Hashtable.Lookup.{view}
use ycsb_c_copy.Hashtable.Table.{IsGood}
use ycsb_c_copy.Hashtable.{Hashtable, find}
use ycsb_c_copy.HashtableDb.Fields.{AreTables}
use ycsb_c_copy.HashtableDb.History.{store_model, reply, outcome, perform_all-refines}
use ycsb_c_copy.HashtableDb.Instances.{
  lock_stl_tables-AreTables, tbb_rand_tables-AreTables, tbb_scan_tables-AreTables,
}
use ycsb_c_copy.HashtableDb.Interface.{
  lock_stl_tables, tbb_rand_tables, tbb_scan_tables, lock_stl_db, tbb_rand_db, tbb_scan_db,
  hashtable_db,
}
use ycsb_c_copy.HashtableDb.Refinement.{Store, IsValid, contents}
use ycsb_c_copy.HashtableDb.{Tables, KeyHashtable}
use ycsb_c_copy.Prelude.{◌≡◌, refl, sym, ap, ◌∙◌, subst, List, [], ◌∷◌, none, Bytes}
use ycsb_c_copy.Run.{ok}
use ycsb_c_copy.TbbHashtable.Promise.{rand_table-IsTable, scan_table-IsTable}
use ycsb_c_copy.TbbHashtable.{ConcurrentMap, IsMap}

abbrev no_records : Store
no_records k = none

-- What the store replies is the same for all tables.
replies_same :
    (𝒯 𝒰 : Tables) (t : AreTables 𝒯) (u : AreTables 𝒰) (cs : List Call) (s : Store)
    → replies (store_model 𝒯 t) cs s ≡ replies (store_model 𝒰 u) cs s
replies_same 𝒯 𝒰 t u [] s = refl
replies_same 𝒯 𝒰 t u (c ∷ cs) s = ap (◌∷◌ (reply c s)) (replies_same 𝒯 𝒰 t u cs (outcome c s))

-- A database whose key table is empty.
record IsEmpty (𝒯 : Tables) (tables : AreTables 𝒯) (db : KeyHashtable 𝒯) : Type 0 where
  valid : IsValid 𝒯 tables db
  holds_none : contents 𝒯 tables db ≡ no_records

replies-IsEmpty :
    (𝒯 : Tables) (tables : AreTables 𝒯) (db : KeyHashtable 𝒯) (cs : List Call)
    → IsEmpty 𝒯 tables db
    → (db' : KeyHashtable 𝒯) × (perform_all (hashtable_db 𝒯) cs db
        ≡ ok (replies (store_model lock_stl_tables lock_stl_tables-AreTables) cs no_records, db'))
replies-IsEmpty 𝒯 tables db cs h =
    let (db', run, v, e) = perform_all-refines 𝒯 tables cs db h.valid in
    (
      db',
      run
          ∙ ap (λ s. ok (replies (store_model 𝒯 tables) cs s, db')) h.holds_none
          ∙ ap (λ rs. ok (rs, db'))
              (replies_same 𝒯 lock_stl_tables tables lock_stl_tables-AreTables cs no_records),
    )

module _ (ℱ : ConcurrentMap Bytes) (𝒦 : ConcurrentMap ℱ.Map) (new : ℱ.Map) (db : 𝒦.Map)
    (is_f : IsMap ℱ) (is_k : IsMap 𝒦) (is_new : ℱ.nodes new ≡ []) (is_db : 𝒦.nodes db ≡ []) where
  db-IsGood : IsGood (𝒦.nodes db)
  db-IsGood = subst (λ (t : Hashtable ℱ.Map). IsGood t) (sym is_db) ((tt, tt))

  db-empty : (k : Bytes) → view (𝒦.nodes db) k ≡ none
  unfolding view find
  db-empty k = ap (λ t. view t k) is_db

  rand-IsEmpty :
      IsEmpty (tbb_rand_tables ℱ 𝒦 new) (tbb_rand_tables-AreTables ℱ 𝒦 new is_f is_k is_new) db
  unfolding tbb_rand_tables-AreTables rand_table-IsTable
  rand-IsEmpty = record {
    valid = record { good = db-IsGood; fields = λ k t e. cc (db-empty k) };
    holds_none = fun_ext λ k. rw (db-empty k);
  }

  scan-IsEmpty :
      IsEmpty (tbb_scan_tables ℱ 𝒦 new) (tbb_scan_tables-AreTables ℱ 𝒦 new is_f is_k is_new) db
  unfolding tbb_scan_tables-AreTables scan_table-IsTable
  scan-IsEmpty = record {
    valid = record { good = db-IsGood; fields = λ k t e. cc (db-empty k) };
    holds_none = fun_ext λ k. rw (db-empty k);
  }

  stl-IsEmpty : IsEmpty lock_stl_tables lock_stl_tables-AreTables []
  unfolding view find
  stl-IsEmpty = record {
    valid = record { good = (tt, tt); fields = λ k t e. cc };
    holds_none = fun_ext λ k. refl;
  }

  -- Whatever order the containers of TBB keep their nodes in, `LockStlDB`, `TbbRandDB` and `TbbScanDB`,
  -- each from an empty key table, give the same codes and the same fields to any history of `Insert`,
  -- `Update`, `Delete` and `Read` of listed fields, made one after the other, and no call faults.
  pub databases-agree :
      (cs : List Call)
      → (given : List Reply) × (s : lock_stl_db.State) × (r t : 𝒦.Map) × (perform_all lock_stl_db cs
            []
          ≡ ok (given, s))
        × (perform_all (tbb_rand_db ℱ 𝒦 new) cs db ≡ ok (given, r))
        × (perform_all (tbb_scan_db ℱ 𝒦 new) cs db ≡ ok (given, t))
  databases-agree cs =
      let stl = lock_stl_tables-AreTables in
      let (s, run_s) = replies-IsEmpty lock_stl_tables stl [] cs stl-IsEmpty in
      let (r, run_r) = replies-IsEmpty (tbb_rand_tables ℱ 𝒦 new) _ db cs rand-IsEmpty in
      let (t, run_t) = replies-IsEmpty (tbb_scan_tables ℱ 𝒦 new) _ db cs scan-IsEmpty in
      (replies (store_model lock_stl_tables stl) cs no_records, s, r, t, run_s, run_r, run_t)
