-- ===== src/HashtableDb/Refinement.antt =====
-- `HashtableDB` refines a store that maps a text, table name and key joined, to a record.
use mathlib.Core.Path.{fun_ext}
use ycsb_c_copy.Db.{KvPair, k_ok, k_error_no_data}
use ycsb_c_copy.HashString.{c_str}
use ycsb_c_copy.HashtableDb.Fields.{
  Record, empty, put_all, add_all, insert_all, pick_all, AreTables, view, IsGood,
  read_fields-pick_all, fill_fields-add_all, update_fields-put_all, insert_fields-insert_all,
}
use ycsb_c_copy.HashtableDb.{
  Tables, FieldHashtable, KeyHashtable, collect, read, store, update, insert, delete,
}
use ycsb_c_copy.Prelude.{
  ℕ, ◌≡◌, refl, ◌∙◌, true, false, List, ◌++◌, Option, none, some, if◌then◌else◌, Bytes, equal,
  equal_refl, arith, Option-cases, inl, inr,
}
use ycsb_c_copy.Run.{ok, ◌>>=◌}

abbrev pub Store : Type 0
Store = Bytes → Option Record

abbrev pub key_of : Bytes → Bytes → Bytes
key_of table key = c_str (table ++ key)

abbrev pub set_record : Store → Bytes → Option Record → Store
set_record s k r q = if equal k q then r else s q

abbrev pub record_at : Store → Bytes → Record
record_at s k = elim (s k) [ none ↦ empty | some r ↦ r ]

-- `Update` makes the record of a key that is not there, where an earlier field wins, and writes
-- into a record that is there, where a later one wins.
abbrev pub updated : Store → Bytes → List KvPair → Record
updated s k values = elim (s k) [ none ↦ add_all empty values | some r ↦ put_all r values ]

module _ (𝒯 : Tables) (tables : AreTables 𝒯) where
  open tables use {keys_table}

  abbrev as_record : Option (FieldHashtable 𝒯) → Option Record
  as_record none = none
  as_record (some t) = some (view 𝒯 tables t)

  -- What the database holds, as its readers see it.
  abbrev pub contents : KeyHashtable 𝒯 → Store
  contents db k = as_record (keys_table.view db k)

  -- The key table is good, and so is every field table.
  pub record IsValid (db : KeyHashtable 𝒯) : Type 0 where
    pub good : keys_table.IsGood db
    pub fields :
        (k : Bytes) (t : FieldHashtable 𝒯) → keys_table.view db k ≡ some t → IsGood 𝒯 tables t

  -- A database that maps `k` to the table `t` and every other key as `db` does.
  Writes-IsValid :
      (db db' : KeyHashtable 𝒯) (k : Bytes) (o : Option (FieldHashtable 𝒯))
      → IsValid db
      → keys_table.IsGood db'
      → ((q : Bytes) → keys_table.view db' q ≡ (if equal k q then o else keys_table.view db q))
      → ((t : FieldHashtable 𝒯) → o ≡ some t → IsGood 𝒯 tables t)
      → IsValid db' × (contents db' ≡ set_record (contents db) k (as_record o))
  Writes-IsValid db db' k o valid h reads good = (
    record { good = h; fields = λ q t e. ground (arith, reads q, good t, valid.fields q t) },
    fun_ext (λ q. ground (arith, reads q)),
  )

  -- The end of `Insert` and `Update`: the field table is written under `k`, which has one by then.
  store-IsValid :
      (db mid : KeyHashtable 𝒯) (key_index : Bytes) (t old : FieldHashtable 𝒯) (r : Record)
      → IsValid db
      → keys_table.IsGood mid
      → keys_table.view mid (c_str key_index) ≡ some old
      → ((q : Bytes)
          → equal (c_str key_index) q ≡ false
          → keys_table.view mid q ≡ keys_table.view db q)
      → IsGood 𝒯 tables t
      → view 𝒯 tables t ≡ r
      → (db' : KeyHashtable 𝒯) × (store 𝒯 key_index t mid ≡ ok db')
        × IsValid db'
        × (contents db' ≡ set_record (contents db) (c_str key_index) (some r))
  store-IsValid db mid key_index t old r valid h e same good is_r =
      let k = c_str key_index in
      let (db', run, g, reads, holds) = keys_table.update-view mid k t h in
      let reads' : (q : Bytes)
          → keys_table.view db' q ≡ (if equal k q then some t else keys_table.view mid q) =
        λ q. reads q ∙ rw e in
      let (v, c) =
        Writes-IsValid db db' k (some t) valid g (λ q. ground (arith, reads' q, same q))
          (λ u p. ground arith) in
      (db', rw run, v, c ∙ rw is_r)

  module _ (table key : Bytes) (db : KeyHashtable 𝒯) (valid : IsValid db) where
    pub delete-refines :
        (code : ℕ) × (db' : KeyHashtable 𝒯) × (delete 𝒯 table key db ≡ ok (code, db'))
        × IsValid db'
        × (code
            ≡ (elim (contents db (key_of table key)) [ none ↦ k_error_no_data | some r ↦ k_ok ]))
        × (contents db' ≡ set_record (contents db) (key_of table key) none)
    unfolding delete
    delete-refines =
        let (db', run, g, reads, holds) = keys_table.remove-view db (key_of table key) valid.good in
        let (v, c) = Writes-IsValid db db' (key_of table key) none valid g reads (λ t e. cc) in
        elim (Option-cases (keys_table.view db (key_of table key))) [
          | inl e ↦ (k_error_no_data, db', rw (run, e), v, rw e, c)
          | inr (t, e) ↦ (k_ok, db', rw (run, e), v, rw e, c)
        ]

    got : 𝒯.keys.get db (some (key_of table key)) ≡ ok (keys_table.view db (key_of table key))
    got = keys_table.get-view db (key_of table key) valid.good

    pub read-refines :
        (fields : List Bytes) (result : List KvPair)
        → read 𝒯 table key (some fields) result db
          ≡ ok (elim (contents db (key_of table key)) [
            | none ↦ (k_error_no_data, result, db)
            | some r ↦ (k_ok, pick_all r fields, db)
          ])
    unfolding read collect
    read-refines fields result = elim (Option-cases (keys_table.view db (key_of table key))) [
      | inl e ↦ rw (got, e)
      | inr (t, e) ↦ rw (
        got,
        e,
        ◌>>=◌,
        read_fields-pick_all 𝒯 tables t fields (valid.fields (key_of table key) t e),
      )
    ]

    -- The key table after the first lines of `Insert` and `Update` on a key that is not there.
    created :
        keys_table.view db (key_of table key) ≡ none
        → (mid : KeyHashtable 𝒯) × (𝒯.keys.insert db (some (key_of table key)) 𝒯.new_field_hashtable
            ≡ ok (true, mid))
          × keys_table.IsGood mid
          × (keys_table.view mid (key_of table key) ≡ some 𝒯.new_field_hashtable)
          × ((q : Bytes)
              → equal (key_of table key) q ≡ false
              → keys_table.view mid q ≡ keys_table.view db q)
    created e =
        let k = key_of table key in
        let (mid, run, g, reads, holds) =
          keys_table.insert-view db k 𝒯.new_field_hashtable valid.good in
        (mid, run ∙ rw e, g, reads k ∙ rw (e, equal_refl k), λ q n. reads q ∙ rw n)

    record_at-none :
        keys_table.view db (key_of table key) ≡ none
        → record_at (contents db) (key_of table key) ≡ empty
    record_at-none e = rw (record_at, e)

    record_at-some :
        (old : FieldHashtable 𝒯)
        → keys_table.view db (key_of table key) ≡ some old
        → record_at (contents db) (key_of table key) ≡ view 𝒯 tables old
    record_at-some old e = rw (record_at, e)

    pub insert-refines :
        (values : List KvPair)
        → (code : ℕ) × (db' : KeyHashtable 𝒯) × (insert 𝒯 table key values db ≡ ok (code, db'))
          × IsValid db'
          × (code ≡ (insert_all (record_at (contents db) (key_of table key)) values).0)
          × (contents db'
              ≡ set_record
                  (contents db)
                  (key_of table key)
                  (some (insert_all (record_at (contents db) (key_of table key)) values).1))
    unfolding insert
    insert-refines values =
        let k = key_of table key in
        let new = 𝒯.new_field_hashtable in
        let is_empty = tables.new_field_hashtable-empty in
        elim (Option-cases (keys_table.view db k)) [
          | inl e ↦
              let (mid, made, d, at_k, others) = created e in
              let (t, run, h, w) =
                insert_fields-insert_all 𝒯 tables new values tables.new_field_hashtable-IsGood in
              let (db', stored, v, c) =
                store-IsValid db mid (table ++ key) t new _ valid d at_k others h w in
              (
                (insert_all (view 𝒯 tables new) values).0,
                db',
                rw (got, e, made, run, stored),
                v,
                rw (record_at-none e, is_empty),
                c ∙ rw (record_at-none e, is_empty),
              )
          | inr (old, e) ↦
              let (t, run, h, w) =
                insert_fields-insert_all 𝒯 tables old values (valid.fields k old e) in
              let (db', stored, v, c) =
                store-IsValid db db (table ++ key) t old _ valid valid.good e (λ q n. refl) h w in
              (
                (insert_all (view 𝒯 tables old) values).0,
                db',
                rw (got, e, ◌>>=◌, run, stored),
                v,
                rw (record_at-some old e),
                c ∙ rw (record_at-some old e),
              )
        ]

    pub update-refines :
        (values : List KvPair)
        → (db' : KeyHashtable 𝒯) × (update 𝒯 table key values db ≡ ok (k_ok, db'))
          × IsValid db'
          × (contents db'
              ≡ set_record
                  (contents db)
                  (key_of table key)
                  (some (updated (contents db) (key_of table key) values)))
    unfolding update
    update-refines values =
        let k = key_of table key in
        let new = 𝒯.new_field_hashtable in
        elim (Option-cases (keys_table.view db k)) [
          | inl e ↦
              let (mid, made, d, at_k, others) = created e in
              let (t, run, h, w) =
                fill_fields-add_all 𝒯 tables new values tables.new_field_hashtable-IsGood in
              let (db', stored, v, c) =
                store-IsValid db mid (table ++ key) t new _ valid d at_k others h w in
              (
                db',
                rw (got, e, made, run, stored),
                v,
                c ∙ rw (updated, e, tables.new_field_hashtable-empty),
              )
          | inr (old, e) ↦
              let (t, run, h, w) =
                update_fields-put_all 𝒯 tables old values (valid.fields k old e) in
              let (db', stored, v, c) =
                store-IsValid db db (table ++ key) t old _ valid valid.good e (λ q n. refl) h w in
              (db', rw (got, e, ◌>>=◌, run, stored), v, c ∙ rw (updated, e))
        ]
