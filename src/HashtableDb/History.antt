-- ===== src/HashtableDb/History.antt =====
-- Whole histories of calls on one `HashtableDB`, against the store that it refines.
use ycsb_c_copy.Db.{k_ok, k_error_no_data}
use ycsb_c_copy.Db.History.{
  Call, insert_call, update_call, delete_call, read_call, Reply, perform, perform_all, Implements,
  replies, outcomes, AreAllowed, perform_all-model,
}
use ycsb_c_copy.HashtableDb.Fields.{insert_all, pick_all, AreTables}
use ycsb_c_copy.HashtableDb.Interface.{hashtable_db}
use ycsb_c_copy.HashtableDb.Refinement.{
  Store, contents, key_of, set_record, record_at, updated, IsValid, insert-refines, update-refines,
  delete-refines, read-refines,
}
use ycsb_c_copy.HashtableDb.{Tables, KeyHashtable}
use ycsb_c_copy.Prelude.{◌≡◌, refl, List, [], ◌∷◌, none, some, arith}
use ycsb_c_copy.Run.{ok}

-- The calls on the store.
abbrev pub reply : Call → Store → Reply
reply (insert_call t k vs) s = ((insert_all (record_at s (key_of t k)) vs).0, [])
reply (update_call t k vs) s = (k_ok, [])
reply (delete_call t k) s = (elim (s (key_of t k)) [ none ↦ k_error_no_data | some r ↦ k_ok ], [])
reply (read_call t k fs) s = elim (s (key_of t k)) [
  | none ↦ (k_error_no_data, [])
  | some r ↦ (k_ok, pick_all r fs)
]

abbrev pub outcome : Call → Store → Store
outcome (insert_call t k vs) s =
    set_record s (key_of t k) (some (insert_all (record_at s (key_of t k)) vs).1)
outcome (update_call t k vs) s = set_record s (key_of t k) (some (updated s (key_of t k) vs))
outcome (delete_call t k) s = set_record s (key_of t k) none
outcome (read_call t k fs) s = s

module _ (𝒯 : Tables) (tables : AreTables 𝒯) where
  pub perform-refines :
      (c : Call) (db : KeyHashtable 𝒯)
      → IsValid 𝒯 tables db
      → (db' : KeyHashtable 𝒯) × (perform (hashtable_db 𝒯) c db
          ≡ ok (reply c (contents 𝒯 tables db), db'))
        × IsValid 𝒯 tables db'
        × (contents 𝒯 tables db' ≡ outcome c (contents 𝒯 tables db))
  perform-refines (insert_call t k vs) db valid =
      let (c, db', run, v, code, e) = insert-refines 𝒯 tables t k db valid vs in
      (db', rw run (rw code), v, e)
  perform-refines (update_call t k vs) db valid =
      let (db', run, v, e) = update-refines 𝒯 tables t k db valid vs in (db', rw run, v, e)
  perform-refines (delete_call t k) db valid =
      let (c, db', run, v, code, e) = delete-refines 𝒯 tables t k db valid in
      (db', rw run (rw code), v, e)
  perform-refines (read_call t k fs) db valid =
      (db, rw (read-refines 𝒯 tables t k db valid fs []) (ground arith), valid, refl)

  -- Every call is allowed.
  abbrev pub store_model : Implements (hashtable_db 𝒯)
  store_model = record {
    Model = Store;
    IsGood = IsValid 𝒯 tables;
    IsAllowed = λ c. Unit;
    model_of = contents 𝒯 tables;
    reply = reply;
    outcome = outcome;
    step = λ c db allowed. perform-refines c db;
  }

  all_allowed : (cs : List Call) → AreAllowed store_model cs
  all_allowed [] = tt
  all_allowed (c ∷ cs) = (tt, all_allowed cs)

  -- On `HashtableDB` over any tables that keep the promise of lib/string_hashtable.h, any history of
  -- inserts, updates, deletes and reads of listed fields runs without a fault on a valid database,
  -- returns every code and every field that the store returns, and ends in a valid database that holds
  -- what the store holds.
  pub perform_all-refines :
      (cs : List Call) (db : KeyHashtable 𝒯)
      → IsValid 𝒯 tables db
      → (db' : KeyHashtable 𝒯) × (perform_all (hashtable_db 𝒯) cs db
          ≡ ok (replies store_model cs (contents 𝒯 tables db), db'))
        × IsValid 𝒯 tables db'
        × (contents 𝒯 tables db' ≡ outcomes store_model cs (contents 𝒯 tables db))
  perform_all-refines cs db valid = perform_all-model store_model cs db (all_allowed cs) valid
