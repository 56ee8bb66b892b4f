-- ===== src/Client/Loading.antt =====
-- Loading records through `DoInsert` into the hash table database.
use ycsb_c_copy.Client.{Client, do_insert}
use ycsb_c_copy.Db.{KvPair, k_ok}
use ycsb_c_copy.Generator.Counter
use ycsb_c_copy.Generator.Uniform
use ycsb_c_copy.HashString.{c_str}
use ycsb_c_copy.HashtableDb.Fields.{Record, empty, put, has, put_all, insert_all}
use ycsb_c_copy.HashtableDb.Interface.{hashtable_db}
use ycsb_c_copy.HashtableDb.Refinement.{
  contents, key_of, set_record, record_at, IsValid, insert-refines,
}
use ycsb_c_copy.HashtableDb
use ycsb_c_copy.HashtableDb.{Tables, KeyHashtable}
use ycsb_c_copy.Platform.{Platform}
use ycsb_c_copy.Prelude.Int.{rounds}
use ycsb_c_copy.Prelude.{
  ℕ, zero, suc, ◌+◌, ◌^◌, ◌≤◌, ◌<◌, ◌≡◌, ◌≢◌, refl, sym, ◌∙◌, ap, true, false, List, [], ◌∷◌, none,
  some, Bytes, equal, equal_iff, equal_refl, arith, ◌==◌,
}
use ycsb_c_copy.Run.{ok}
use ycsb_c_copy.Workload.Names.{field_name-injective, c_str-field_name, c_str-NoNul}
use ycsb_c_copy.Number.RoundTrip.{NoNul}
use ycsb_c_copy.Workload.Values.{AreFields, Printable, CanFill, moved, build_values-AreFields}
use ycsb_c_copy.Workload.{
  Generator, World, field_name, build_key_name, next_sequence_key, build_values,
}
use ycsb_c_copy.HashtableDb.Fields.{AreTables}

equal-field_name :
    (i j : ℕ)
    → i < 2 ^ 64
    → j < 2 ^ 64
    → i ≢ j
    → equal (c_str (field_name i)) (c_str (field_name j)) ≡ false
equal-field_name i j hi hj ne =
    rw (c_str-field_name i, c_str-field_name j)
      (ground (arith, equal_iff (field_name i) (field_name j), field_name-injective i j hi hj))

has-put_other :
    (r : Record) (e : KvPair) (i j : ℕ)
    → e.0 ≡ field_name i
    → i < 2 ^ 64
    → j < 2 ^ 64
    → i ≢ j
    → has (put r e) (field_name j) ≡ has r (field_name j)
has-put_other r (f, v) i j e hi hj ne = rw (e, has, equal-field_name i j hi hj ne)

-- `BuildValues` never repeats a name, so `Insert` takes all its fields into a record without them.
insert_all-AreFields :
    (n i : ℕ) (es : List KvPair) (r : Record)
    → AreFields n i es
    → i + n ≤ 2 ^ 64
    → ((j : ℕ) → i ≤ j → j < i + n → has r (field_name j) ≡ false)
    → insert_all r es ≡ (k_ok, put_all r es)
insert_all-AreFields zero i es r fields fits free = rw fields
insert_all-AreFields (suc n) i [] r fields fits free = absurd fields
insert_all-AreFields (suc n) i (e ∷ es) r (name, printable, fields) fits free =
    let here : has r e.0 ≡ false = rw name (free i (omega arith) (omega arith)) in
    rw here (
      insert_all-AreFields n (i + 1) es (put r e) fields (omega arith) (λ j lo hi.
        has-put_other r e i j name (omega arith) (omega arith) (omega arith)
        ∙ free j (omega arith) (omega arith)))

-- The record gives back every field of the list.
abbrev pub Holds : Record → List KvPair → Type 0
Holds r [] = Unit
Holds r (e ∷ es) = (r e.0 ≡ some e.1) × Holds r es

put_all_other :
    (n i j : ℕ) (es : List KvPair) (r : Record)
    → AreFields n i es
    → i + n ≤ 2 ^ 64
    → j < i
    → put_all r es (c_str (field_name j)) ≡ r (c_str (field_name j))
put_all_other zero i j es r fields fits lt = rw fields
put_all_other (suc n) i j [] r fields fits lt = absurd fields
put_all_other (suc n) i j (e ∷ es) r (name, printable, fields) fits lt =
    put_all_other n (i + 1) j es (put r e) fields (omega arith) (omega arith)
    ∙ rw (name, equal-field_name i j (omega arith) (omega arith) (omega arith))

Printable-NoNul : (s : Bytes) → Printable s → NoNul s
Printable-NoNul [] h = tt
Printable-NoNul (c ∷ cs) h = (ground arith, Printable-NoNul cs h.1)

put_all-Holds :
    (n i : ℕ) (es : List KvPair) (r : Record)
    → AreFields n i es
    → i + n ≤ 2 ^ 64
    → Holds (put_all r es) es
put_all-Holds n i [] r fields fits = tt
put_all-Holds zero i (e ∷ es) r fields fits = cc
put_all-Holds (suc n) i ((f, v) ∷ es) r (name, printable, fields) fits =
    let back : put_all (put r (f, v)) es (c_str f) ≡ some (c_str v) = rw name (
      put_all_other n (i + 1) i es (put r (field_name i, v)) fields (omega arith) (omega arith)
      ∙ rw (equal_refl (c_str (field_name i)))) in
    let name_is : c_str f ≡ f = rw name (c_str-field_name i) in
    (
      ap (put_all (put r (f, v)) es) (sym name_is)
          ∙ back
          ∙ ap some (c_str-NoNul v (Printable-NoNul v printable)),
      put_all-Holds n (i + 1) es (put r (f, v)) fields (omega arith),
    )

do_insert_runs :
    (𝒫 : Platform) (𝒯 : Tables) (c : Client 𝒫 (hashtable_db 𝒯)) {key : Bytes} {w w' : World 𝒫}
    {es : List KvPair} {code : ℕ} {db : KeyHashtable 𝒯}
    → next_sequence_key 𝒫 c.world ≡ ok (key, w)
    → build_values 𝒫 w ≡ ok (es, w')
    → HashtableDb.insert 𝒯 w'.workload.table_name key es c.db ≡ ok (code, db)
    → do_insert 𝒫 (hashtable_db 𝒯) c ≡ ok (code == k_ok, record { world = w'; db = db })
unfolding do_insert
do_insert_runs 𝒫 𝒯 c drawn built inserted = rw (drawn, built, inserted)

-- `w` with the counter of keys one further.
abbrev pub counted : (𝒫 : Platform) → World 𝒫 → World 𝒫
counted 𝒫 w =
    let wl = w.workload in
    record w { workload = record wl { key_generator = (Counter.next wl.key_generator).1 } }

module _ (𝒯 : Tables) (tables : AreTables 𝒯) where
  -- `Insert` of the fields that were built, under a key that is not there.
  pub insert-Holds :
      (table key : Bytes) (n : ℕ) (es : List KvPair) (db : KeyHashtable 𝒯)
      → IsValid 𝒯 tables db
      → n ≤ 2 ^ 64
      → AreFields n 0 es
      → contents 𝒯 tables db (key_of table key) ≡ none
      → (r : Record) × (db' : KeyHashtable 𝒯) × (HashtableDb.insert 𝒯 table key es db
          ≡ ok (k_ok, db'))
        × IsValid 𝒯 tables db'
        × (contents 𝒯 tables db' ≡ set_record (contents 𝒯 tables db) (key_of table key) (some r))
        × Holds r es
  insert-Holds table key n es db valid fits fields absent =
      let (code, db', ran, valid', code_is, holds) =
        insert-refines 𝒯 tables table key db valid es in
      let start : record_at (contents 𝒯 tables db) (key_of table key) ≡ empty =
        rw (record_at, absent) in
      let all : insert_all empty es ≡ (k_ok, put_all empty es) =
        insert_all-AreFields n 0 es empty fields (omega arith) (λ j lo hi. refl) in
      let returned : code ≡ k_ok = code_is ∙ rw (start, all) in
      (
        put_all empty es,
        db',
        ran ∙ rw returned,
        valid',
        holds ∙ rw (start, all),
        put_all-Holds n 0 es empty fields (omega arith),
      )

module _ (𝒫 : Platform) (draws : Uniform.DrawsWithin 𝒫) (𝒯 : Tables) (tables : AreTables 𝒯)
    (c : Client 𝒫 (hashtable_db 𝒯)) where
  -- `DoInsert` of a key that the database does not have returns true, and the new record gives back
  -- every field that was built for it, each under its name; other keys keep their records. The counter
  -- of keys has moved by one, and of the workload only that, the generator of field lengths and the
  -- states of chance have changed.
  pub do_insert-Holds :
      (key : Bytes)
      → CanFill 𝒫 draws c.world
      → rounds c.world.workload.field_count ≤ 2 ^ 64
      → IsValid 𝒯 tables c.db
      → build_key_name 𝒫 c.world.workload c.world.workload.key_generator.counter ≡ ok key
      → contents 𝒯 tables c.db (key_of c.world.workload.table_name key) ≡ none
      → (es : List KvPair) × (r : Record) × (g : Generator 𝒫) × (e : 𝒫.Engine) × (cr : 𝒫.Crand)
        × (db : KeyHashtable 𝒯) × (do_insert 𝒫 (hashtable_db 𝒯) c
            ≡ ok (true, record { world = moved 𝒫 draws (counted 𝒫 c.world) g e cr; db = db }))
        × CanFill 𝒫 draws (moved 𝒫 draws (counted 𝒫 c.world) g e cr)
        × IsValid 𝒯 tables db
        × (contents 𝒯 tables db
            ≡ set_record (contents 𝒯 tables c.db) (key_of c.world.workload.table_name key) (some r))
        × AreFields (rounds c.world.workload.field_count) 0 es
        × Holds r es
  unfolding next_sequence_key
  do_insert-Holds key fill fits valid named absent =
      let wl = c.world.workload in
      let w : World 𝒫 = counted 𝒫 c.world in
      let drawn : next_sequence_key 𝒫 c.world ≡ ok (key, w) = unfold Counter.next in rw named in
      let (es, g, e, cr, built, fill', fields) = build_values-AreFields 𝒫 draws w fill in
      let (r, db, ran, valid', holds, holds_all) =
        insert-Holds 𝒯 tables wl.table_name key (rounds wl.field_count) es c.db valid fits fields
          absent in
      (
        es,
        r,
        g,
        e,
        cr,
        db,
        do_insert_runs 𝒫 𝒯 c drawn built ran,
        fill',
        valid',
        holds,
        fields,
        holds_all,
      )
