-- ===== src/Client/FieldReads.antt =====
-- A client that reads one field asks for a name that no record has.
use ycsb_c_copy.Client.{Client, transaction_read}
use ycsb_c_copy.Db.{k_ok, k_error_no_data}
use ycsb_c_copy.Generator.Uniform
use ycsb_c_copy.HashString.{c_str}
use ycsb_c_copy.HashtableDb.Fields.{Record, pick_all}
use ycsb_c_copy.HashtableDb.Interface.{hashtable_db}
use ycsb_c_copy.HashtableDb.Refinement.{contents, key_of, IsValid, read-refines}
use ycsb_c_copy.HashtableDb.{Tables, KeyHashtable}
use ycsb_c_copy.Platform.{Platform}
use ycsb_c_copy.Prelude.{
  ℕ, ◌≡◌, sym, ◌∙◌, false, [], ◌∷◌, ◌++◌, none, some, Bytes, codes, Option-cases, inl, inr,
}
use ycsb_c_copy.Run.{ok}
use ycsb_c_copy.Workload.Choosers.{CanDraw, next_value-CanDraw}
use ycsb_c_copy.Workload.Names.{c_str-field-field_name, field-field_name-ne}
use ycsb_c_copy.Workload.{World, field_name, next_transaction_key, next_field_name}
use ycsb_c_copy.HashtableDb.Fields.{AreTables}

-- Every name in every record is one that `BuildValues` or `NextFieldName` makes.
abbrev pub OnlyFields : (𝒯 : Tables) → AreTables 𝒯 → KeyHashtable 𝒯 → Type 0
OnlyFields 𝒯 tables db =
    (k q v : Bytes) (r : Record)
    → contents 𝒯 tables db k ≡ some r
    → r q ≡ some v
    → (j : ℕ) × (q ≡ field_name j)

no_such_field :
    (𝒯 : Tables) (tables : AreTables 𝒯) (db : KeyHashtable 𝒯) (k : Bytes) (r : Record) (n : ℕ)
    → OnlyFields 𝒯 tables db
    → contents 𝒯 tables db k ≡ some r
    → r (c_str (codes "field" ++ field_name n)) ≡ none
no_such_field 𝒯 tables db k r n only at =
    elim (Option-cases (r (c_str (codes "field" ++ field_name n)))) [
      | inl e ↦ e
      | inr (v, e) ↦
          let (j, same) = only k _ v r at e in
          absurd (field-field_name-ne n j (sym (c_str-field-field_name n) ∙ same))
    ]

module _ (𝒫 : Platform) (draws : Uniform.DrawsWithin 𝒫) (𝒯 : Tables) (tables : AreTables 𝒯)
    (c : Client 𝒫 (hashtable_db 𝒯)) where
  -- With `readallfields=false`, a read transaction on the hash table database returns no field at
  -- all, whatever the record of its key holds, as long as the names in the database are ones that the
  -- workload makes.
  pub transaction_read_empty :
      (fuel : ℕ) (key : Bytes) (w : World 𝒫)
      → next_transaction_key 𝒫 fuel c.world ≡ ok (key, w)
      → w.workload.read_all_fields ≡ false
      → CanDraw 𝒫 draws w.workload.insert_key_sequence w.workload.field_chooser
      → IsValid 𝒯 tables c.db
      → OnlyFields 𝒯 tables c.db
      → (code : ℕ) × (c' : Client 𝒫 (hashtable_db 𝒯)) × (transaction_read 𝒫 (hashtable_db 𝒯) fuel c
          ≡ ok (code, [], c'))
  unfolding transaction_read next_field_name
  transaction_read_empty fuel key w drawn one can valid only =
      let (v, g, e, run, can') =
        next_value-CanDraw 𝒫 draws w.workload.insert_key_sequence w.workload.field_chooser w.engine
          can in
      let w' : World 𝒫 = record w {
        workload = record w.workload { field_chooser = g };
        engine = e;
      } in
      let asked =
        read-refines 𝒯 tables w.workload.table_name key c.db valid
          ((codes "field" ++ field_name v) ∷ []) [] in
      elim (Option-cases (contents 𝒯 tables c.db (key_of w.workload.table_name key))) [
        | inl absent ↦
            (k_error_no_data, record { world = w'; db = c.db }, rw (drawn, one, run, asked, absent))
        | inr (r, at) ↦ (
          k_ok,
          record { world = w'; db = c.db },
          rw (
            drawn,
            one,
            run,
            asked,
            at,
            pick_all,
            no_such_field 𝒯 tables c.db (key_of w.workload.table_name key) r v only at,
          ),
        )
      ]
