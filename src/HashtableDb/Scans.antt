-- ===== src/HashtableDb/Scans.antt =====
-- `Scan`, and `Read` of all fields, against the store.
use ycsb_c_copy.Db.{KvPair, k_ok}
use ycsb_c_copy.HashtableDb.Fields.{Record, pick_all, AreTables, view, read_fields-pick_all}
use ycsb_c_copy.HashtableDb.Refinement.{Store, contents, key_of, record_at, IsValid}
use ycsb_c_copy.HashtableDb.{
  Tables, FieldHashtable, KeyHashtable, no_limit, collect, collect_all, read, scan,
}
use ycsb_c_copy.Prelude.Int.{ℤ, to_u64}
use ycsb_c_copy.Prelude.{
  ℕ, suc, ◌≤◌, ◌≡◌, refl, ap, ◌∙◌, false, List, [], ◌∷◌, Option, none, some, Bytes, length, equal,
  arith, Option-cases, inl, inr,
}
use ycsb_c_copy.Run.{ok, ◌>>=◌}
use ycsb_c_copy.StringHashtable.{lookup, AreIn, AreOnce}

-- The listed fields of the records of the keys.
abbrev pub picked : Store → List Bytes → List Bytes → List (List KvPair)
picked s fields [] = []
picked s fields (k ∷ ks) = pick_all (record_at s k) fields ∷ picked s fields ks

-- The keys have records.
abbrev pub HaveRecords : Store → List Bytes → Type 0
HaveRecords s [] = Unit
HaveRecords s (k ∷ ks) = ((r : Record) × (s k ≡ some r)) × HaveRecords s ks

-- None of the keys is `k`.
abbrev pub Differ : Bytes → List Bytes → Type 0
Differ k [] = Unit
Differ k (l ∷ ks) = (equal l k ≡ false) × Differ k ks

abbrev pub AreApart : List Bytes → Type 0
AreApart [] = Unit
AreApart (k ∷ ks) = Differ k ks × AreApart ks

-- No key, or the one that was asked for and at most `n` others.
abbrev pub StartAt : Option Record → Bytes → ℕ → List Bytes → Type 0
StartAt none k n ks = ks ≡ []
StartAt (some r) k n ks = (rest : List Bytes) × (ks ≡ k ∷ rest) × (length rest ≤ n)

module _ {V : Type 0} where
  abbrev keys_of : List (Bytes × V) → List Bytes
  keys_of [] = []
  keys_of ((k, v) ∷ es) = k ∷ keys_of es

  length-keys_of : (es : List (Bytes × V)) → length (keys_of es) ≡ length es
  length-keys_of [] = refl
  length-keys_of ((k, v) ∷ es) = ap suc (length-keys_of es)

  lookup-Differ : (es : List (Bytes × V)) (k : Bytes) → lookup es k ≡ none → Differ k (keys_of es)
  lookup-Differ [] k h = tt
  lookup-Differ ((l, v) ∷ es) k h = (ground arith, lookup-Differ es k (ground arith))

  AreOnce-AreApart : (es : List (Bytes × V)) → AreOnce es → AreApart (keys_of es)
  AreOnce-AreApart [] h = tt
  AreOnce-AreApart ((k, v) ∷ es) (h, hs) = (lookup-Differ es k h, AreOnce-AreApart es hs)

module _ (𝒯 : Tables) (tables : AreTables 𝒯) (db : KeyHashtable 𝒯)
    (valid : IsValid 𝒯 tables db) where
  open tables use {fields_table, keys_table}

  collect_all-picked :
      (es : List (Bytes × FieldHashtable 𝒯)) (fields : List Bytes)
      → AreIn (keys_table.view db) es
      → (collect_all 𝒯 es (some fields) ≡ ok (picked (contents 𝒯 tables db) fields (keys_of es)))
        × HaveRecords (contents 𝒯 tables db) (keys_of es)
  unfolding collect_all collect
  collect_all-picked [] fields h = (refl, tt)
  collect_all-picked ((k, t) ∷ es) fields (at, h) =
      let (rest, have) = collect_all-picked es fields h in
      (
        rw (read_fields-pick_all 𝒯 tables t fields (valid.fields k t at), rest, record_at, at),
        ((view 𝒯 tables t, rw at), have),
      )

  -- Over any tables that keep the promise of lib/string_hashtable.h, `Scan` of listed fields from a key without a record returns no record, and from a key with one, with
  -- a positive length, the fields of that record and of at most the length less one others, in whatever
  -- order the table has them, all of different keys that have records. It returns kOK and changes
  -- nothing.
  pub scan-picked :
      (table key : Bytes) (len : ℤ) (n : ℕ) (fields : List Bytes) (result : List (List KvPair))
      → to_u64 len ≡ suc n
      → (ks : List Bytes) × (scan 𝒯 table key len (some fields) result db
          ≡ ok (k_ok, picked (contents 𝒯 tables db) fields ks, db))
        × HaveRecords (contents 𝒯 tables db) ks
        × AreApart ks
        × StartAt (contents 𝒯 tables db (key_of table key)) (key_of table key) n ks
  unfolding scan
  scan-picked table key len n fields result many =
      let k = key_of table key in
      elim (Option-cases (keys_table.view db k)) [
        | inl e ↦ (
          [],
          rw (many, keys_table.entries-none db k (suc n) valid.good e) (unfold collect_all in refl),
          tt,
          tt,
          rw (StartAt, e),
        )
        | inr (t, e) ↦
            let (es, run, bound, members, once) = keys_table.entries-some db k t n valid.good e in
            let (all, have) = collect_all-picked ((k, t) ∷ es) fields (e, members) in
            (
              k ∷ keys_of es,
              rw (many, run, ◌>>=◌, all),
              have,
              AreOnce-AreApart ((k, t) ∷ es) once,
              rw (StartAt, e) ((keys_of es, refl, omega (arith, length-keys_of es))),
            )
      ]

  -- `Read` of all fields of a record of fewer than 2 ^ 64 returns each field of the record once, with
  -- its value, and nothing else.
  pub read_all-record :
      (table key : Bytes) (t : FieldHashtable 𝒯) (result : List KvPair)
      → keys_table.view db (key_of table key) ≡ some t
      → 𝒯.fields.size t ≤ no_limit
      → (es : List KvPair) × (read 𝒯 table key none result db ≡ ok (k_ok, es, db))
        × ((q : Bytes) → lookup es q ≡ record_at (contents 𝒯 tables db) (key_of table key) q)
        × AreOnce es
  unfolding read collect
  read_all-record table key t result at small =
      let k = key_of table key in
      let (es, run, all, reads, once) =
        fields_table.entries-view t no_limit (valid.fields k t at) small in
      (
        es,
        rw (keys_table.get-view db k valid.good, at, ◌>>=◌, run),
        λ q. reads q ∙ rw (record_at, at),
        once,
      )
