-- ===== src/HashtableDb.antt =====
-- db/hashtable_db.cc over two hash tables behind lib/string_hashtable.h, as db/lock_stl_db.h and
-- db/tbb_rand_db.h join them. The key table owns its field tables: what the code changes through the
-- pointer to a field table is written back to the key table. Each call on a table is one step.
pub mod Fields
pub mod Refinement
pub mod History
pub mod Interface
pub mod Instances
pub mod Agreement
pub mod Scans
use ycsb_c_copy.Db.{KvPair, k_ok, k_error_no_data, k_error_conflict}
use ycsb_c_copy.HashString.{c_str}
use ycsb_c_copy.Prelude.Int.{ℤ, to_u64}
use ycsb_c_copy.Prelude.{
  ℕ, ◌-◌, ◌^◌, Bool, true, false, List, [], ◌∷◌, ◌++◌, Option, none, some, if◌then◌else◌, Bytes,
}
use ycsb_c_copy.Run.{Run, ok, ◌>>=◌}
use ycsb_c_copy.StringHashtable.{StringHashtable}

-- The tables of a database: a field table maps a field's name to the C string that `CopyString` made
-- of its value. `new_field_hashtable` is what `NewFieldHashtable` makes.
pub record Tables : Type 1 where
  pub fields : StringHashtable Bytes
  pub keys : StringHashtable fields.State
  pub new_field_hashtable : fields.State

abbrev pub FieldHashtable : Tables → Type 0
FieldHashtable 𝒯 = 𝒯.fields.State

abbrev pub KeyHashtable : Tables → Type 0
KeyHashtable 𝒯 = 𝒯.keys.State

-- `strcpy` stops at a byte 0.
unfoldable pub copy_string : Bytes → Bytes
copy_string = c_str

-- `n = -1` converted to `size_t`.
abbrev pub no_limit : ℕ
no_limit = 2 ^ 64 - 1

module _ (𝒯 : Tables) where
  -- The loop over `*fields` that keeps the fields which the table has.
  unfoldable pub read_fields : FieldHashtable 𝒯 → List Bytes → Run (List KvPair)
  read_fields t [] = ok []
  read_fields t (field ∷ fields) = do
    value ← 𝒯.fields.get t (some (c_str field))
    rest ← read_fields t fields
    ok (elim value [ none ↦ rest | some v ↦ (field, v) ∷ rest ])

  -- All fields, or those asked for.
  unfoldable pub collect : FieldHashtable 𝒯 → Option (List Bytes) → Run (List KvPair)
  unfolding read_fields
  collect t none = 𝒯.fields.entries t none no_limit
  collect t (some fields) = read_fields t fields

  unfoldable pub read :
      Bytes
      → Bytes
      → Option (List Bytes)
      → List KvPair
      → KeyHashtable 𝒯
      → Run (ℕ × List KvPair × KeyHashtable 𝒯)
  unfolding collect
  read table key fields result db = do
    found ← 𝒯.keys.get db (some (c_str (table ++ key)))
    elim found [
      | none ↦ ok (k_error_no_data, result, db)
      | some t ↦ do found_fields ← collect t fields; ok (k_ok, found_fields, db)
    ]

  -- The loop of `Scan` over the key table's entries.
  unfoldable pub collect_all :
      List (Bytes × FieldHashtable 𝒯) → Option (List Bytes) → Run (List (List KvPair))
  unfolding collect
  collect_all [] fields = ok []
  collect_all ((k, t) ∷ es) fields = do
    values ← collect t fields
    rest ← collect_all es fields
    ok (values ∷ rest)

  unfoldable pub scan :
      Bytes
      → Bytes
      → ℤ
      → Option (List Bytes)
      → List (List KvPair)
      → KeyHashtable 𝒯
      → Run (ℕ × List (List KvPair) × KeyHashtable 𝒯)
  unfolding collect_all
  scan table key len fields result db = do
    key_pairs ← 𝒯.keys.entries db (some (c_str (table ++ key))) (to_u64 len)
    found ← collect_all key_pairs fields
    ok (k_ok, found, db)

  -- The loop of `Update` on a new field table; what `Insert` returns is not looked at.
  unfoldable pub fill_fields : FieldHashtable 𝒯 → List KvPair → Run (FieldHashtable 𝒯)
  unfolding copy_string
  fill_fields t [] = ok t
  fill_fields t ((f, v) ∷ values) = do
    (done, t') ← 𝒯.fields.insert t (some (c_str f)) (copy_string v)
    fill_fields t' values

  -- The body of the loop of `Update` on a field table that the key had.
  unfoldable pub update_field : FieldHashtable 𝒯 → KvPair → Run (FieldHashtable 𝒯)
  unfolding copy_string
  update_field t (f, v) = do
    (old, t') ← 𝒯.fields.update t (some (c_str f)) (copy_string v)
    elim old [
      | none ↦ do (done, t'') ← 𝒯.fields.insert t' (some (c_str f)) (copy_string v); ok t''
      | some o ↦ ok t'
    ]

  unfoldable pub update_fields : FieldHashtable 𝒯 → List KvPair → Run (FieldHashtable 𝒯)
  update_fields t [] = ok t
  update_fields t (e ∷ values) = do t' ← update_field t e; update_fields t' values

  -- Write the field table behind the pointer under `key_index`.
  abbrev pub store : Bytes → FieldHashtable 𝒯 → KeyHashtable 𝒯 → Run (KeyHashtable 𝒯)
  store key_index t db = do (old, db') ← 𝒯.keys.update db (some (c_str key_index)) t; ok db'

  unfoldable pub update : Bytes → Bytes → List KvPair → KeyHashtable 𝒯 → Run (ℕ × KeyHashtable 𝒯)
  unfolding fill_fields update_fields
  update table key values db = do
    let key_index = table ++ key
    found ← 𝒯.keys.get db (some (c_str key_index))
    elim found [
      | none ↦ do
        (done, db') ← 𝒯.keys.insert db (some (c_str key_index)) 𝒯.new_field_hashtable
        t ← fill_fields 𝒯.new_field_hashtable values
        db'' ← store key_index t db'
        ok (k_ok, db'')
      | some t ↦ do t' ← update_fields t values; db' ← store key_index t' db; ok (k_ok, db')
    ]

  -- The loop of `Insert`, which stops at the first field that the table has.
  unfoldable pub insert_fields : FieldHashtable 𝒯 → List KvPair → Run (ℕ × FieldHashtable 𝒯)
  unfolding copy_string
  insert_fields t [] = ok (k_ok, t)
  insert_fields t ((f, v) ∷ values) = do
    (done, t') ← 𝒯.fields.insert t (some (c_str f)) (copy_string v)
    elim done [ true ↦ insert_fields t' values | false ↦ ok (k_error_conflict, t') ]

  unfoldable pub insert : Bytes → Bytes → List KvPair → KeyHashtable 𝒯 → Run (ℕ × KeyHashtable 𝒯)
  unfolding insert_fields
  insert table key values db = do
    let key_index = table ++ key
    found ← 𝒯.keys.get db (some (c_str key_index))
    (t, db') ← elim found [
      | none ↦ do
        (done, db') ← 𝒯.keys.insert db (some (c_str key_index)) 𝒯.new_field_hashtable
        ok (𝒯.new_field_hashtable, db')
      | some t ↦ ok (t, db)
    ]
    (code, t') ← insert_fields t values
    db'' ← store key_index t' db'
    ok (code, db'')

  unfoldable pub delete : Bytes → Bytes → KeyHashtable 𝒯 → Run (ℕ × KeyHashtable 𝒯)
  delete table key db = do
    (found, db') ← 𝒯.keys.remove db (some (c_str (table ++ key)))
    ok (elim found [ none ↦ (k_error_no_data, db') | some t ↦ (k_ok, db') ])
