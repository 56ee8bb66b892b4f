-- ===== src/Ycsbc/Loading.antt =====
-- The loading phase on the hash table database, with ordered inserts.
use native.Mathlib.Nat.{mod-eq_of_lt}
use ycsb_c_copy.Client.Loading.{Holds, counted, do_insert-Holds}
use ycsb_c_copy.Client.{Client}
use ycsb_c_copy.Db.{KvPair}
use ycsb_c_copy.Generator.Counter
use ycsb_c_copy.Generator.Uniform
use ycsb_c_copy.HashtableDb.{Tables, KeyHashtable}
use ycsb_c_copy.HashtableDb.Fields.{Record}
use ycsb_c_copy.HashtableDb.Interface.{hashtable_db}
use ycsb_c_copy.HashtableDb.Refinement.{contents, set_record, IsValid}
use ycsb_c_copy.Number.RoundTrip.{NoNul}
use ycsb_c_copy.Number.{to_string}
use ycsb_c_copy.Platform.{Platform}
use ycsb_c_copy.Prelude.Int.{rounds, ℤ}
use ycsb_c_copy.Prelude.{
  ℕ, zero, suc, ◌+◌, ◌^◌, ◌≤◌, ◌<◌, ◌≡◌, ◌≢◌, refl, ◌∙◌, ap, true, false, List, ◌++◌, Option, none,
  some, Bytes, codes, equal, equal_refl, arith, ◌==◌, Bool-cases, inl, inr,
}
use ycsb_c_copy.Run.{ok, ◌>>=◌}
use ycsb_c_copy.Workload.Names.{build_key_name-ok}
use ycsb_c_copy.Workload.Values.{AreFields, CanFill, moved}
use ycsb_c_copy.Workload.{Generator, World, build_key_name}
use ycsb_c_copy.Ycsbc.RecordKeys.{record_key, equal-record_key}
use ycsb_c_copy.Ycsbc.{round, delegate_from, delegate_client}
use ycsb_c_copy.HashtableDb.Fields.{AreTables}

-- A record with all the fields of the workload, each with a printable value.
abbrev pub IsLoaded : ℕ → Option Record → Type 0
IsLoaded field_count o =
    (r : Record) × (es : List KvPair) × (o ≡ some r) × AreFields field_count 0 es × Holds r es

module _ (𝒫 : Platform) (draws : Uniform.DrawsWithin 𝒫) (𝒯 : Tables) (tables : AreTables 𝒯) where
  -- A client whose next `n` keys, in order and from number `s` on, are not in the database.
  pub record CanLoad (s n : ℕ) (c : Client 𝒫 (hashtable_db 𝒯)) : Type 0 where
    pub ordered : c.world.workload.ordered_inserts ≡ true
    pub counter_is : c.world.workload.key_generator.counter ≡ s
    pub room : s + n ≤ c.world.workload.record_count
    pub small : c.world.workload.record_count < 2 ^ 64
    pub fields_fit : rounds c.world.workload.field_count ≤ 2 ^ 64
    pub named : NoNul c.world.workload.table_name
    pub fill : CanFill 𝒫 draws c.world
    pub valid : IsValid 𝒯 tables c.db
    pub absent :
        (j : ℕ)
        → s ≤ j
        → j < s + n
        → contents 𝒯 tables c.db (record_key c.world.workload.table_name j) ≡ none

  pub fewer :
      (s s' n n' : ℕ) (c : Client 𝒫 (hashtable_db 𝒯))
      → s ≡ s'
      → n' ≤ n
      → CanLoad s n c
      → CanLoad s' n' c
  fewer s s' n n' c e le h = record {
    ordered = h.ordered;
    counter_is = h.counter_is ∙ e;
    room = omega (arith, h.room);
    small = h.small;
    fields_fit = h.fields_fit;
    named = h.named;
    fill = h.fill;
    valid = h.valid;
    absent = λ j lo hi. h.absent j (omega arith) (omega arith);
  }

  -- The client after an insert that left the workload and the database so.
  abbrev after :
      World 𝒫 → Generator 𝒫 → 𝒫.Engine → 𝒫.Crand → KeyHashtable 𝒯 → Client 𝒫 (hashtable_db 𝒯)
  after w g e cr db = record { world = moved 𝒫 draws (counted 𝒫 w) g e cr; db = db }

  step-CanLoad :
      (s n : ℕ) (c : Client 𝒫 (hashtable_db 𝒯)) (r : Record) (g : Generator 𝒫) (e : 𝒫.Engine)
      (cr : 𝒫.Crand) (db : KeyHashtable 𝒯)
      → CanLoad s (suc n) c
      → CanFill 𝒫 draws (moved 𝒫 draws (counted 𝒫 c.world) g e cr)
      → IsValid 𝒯 tables db
      → contents 𝒯 tables db
        ≡ set_record (contents 𝒯 tables c.db) (record_key c.world.workload.table_name s) (some r)
      → CanLoad (s + 1) n (after c.world g e cr db)
  unfolding Counter.next
  step-CanLoad s n c r g e cr db h fill valid is_db = record {
    ordered = h.ordered;
    counter_is = rw h.counter_is (omega (arith, h.room, h.small));
    room = omega (arith, h.room);
    small = h.small;
    fields_fit = h.fields_fit;
    named = h.named;
    fill = fill;
    valid = valid;
    absent = λ j lo hi.
        ap (λ st. st (record_key c.world.workload.table_name j)) is_db
        ∙ rw
            (equal-record_key c.world.workload.table_name s j h.named
              (omega (arith, h.room, h.small)) (omega (arith, h.room, h.small)) (omega arith))
            (h.absent j (omega arith) (omega arith));
  }

  -- Between `c` and `c'`, the `n` keys from `s` on were loaded, and no other key was written.
  pub record Loaded (s n : ℕ) (c c' : Client 𝒫 (hashtable_db 𝒯)) : Type 0 where
    pub same_table : c'.world.workload.table_name ≡ c.world.workload.table_name
    pub same_fields : c'.world.workload.field_count ≡ c.world.workload.field_count
    pub loaded :
        (j : ℕ)
        → s ≤ j
        → j < s + n
        → IsLoaded
            (rounds c.world.workload.field_count)
            (contents 𝒯 tables c'.db (record_key c.world.workload.table_name j))
    pub others :
        (q : Bytes)
        → ((j : ℕ) → s ≤ j → j < s + n → equal (record_key c.world.workload.table_name j) q ≡ false)
        → contents 𝒯 tables c'.db q ≡ contents 𝒯 tables c.db q

  pub Loaded-none : (s : ℕ) (c : Client 𝒫 (hashtable_db 𝒯)) → Loaded s 0 c c
  Loaded-none s c = record {
    same_table = refl;
    same_fields = refl;
    loaded = λ j lo hi. absurd (omega arith);
    others = λ q ne. refl;
  }

  -- One insert and then `n` more.
  step-Loaded :
      (s n : ℕ) (c c' : Client 𝒫 (hashtable_db 𝒯)) (r : Record) (es : List KvPair) (g : Generator 𝒫)
      (e : 𝒫.Engine) (cr : 𝒫.Crand) (db : KeyHashtable 𝒯)
      → CanLoad s (suc n) c
      → contents 𝒯 tables db
        ≡ set_record (contents 𝒯 tables c.db) (record_key c.world.workload.table_name s) (some r)
      → AreFields (rounds c.world.workload.field_count) 0 es
      → Holds r es
      → Loaded (s + 1) n (after c.world g e cr db) c'
      → Loaded s (suc n) c c'
  step-Loaded s n c c' r es g e cr db h is_db fields holds rest =
      let table = c.world.workload.table_name in
      let at_s : contents 𝒯 tables db (record_key table s) ≡ some r =
        ap (λ st. st (record_key table s)) is_db ∙ rw (equal_refl (record_key table s)) refl in
      let apart : (i j : ℕ)
          → i < s + suc n
          → j < s + suc n
          → i ≢ j
          → equal (record_key table i) (record_key table j) ≡ false =
        λ i j hi hj.
          equal-record_key table i j h.named (omega (arith, h.room, h.small))
            (omega (arith, h.room, h.small)) in
      record {
        same_table = rest.same_table;
        same_fields = rest.same_fields;
        loaded = λ j lo hi. elim (Bool-cases (s == j)) [
          | inl same ↦
              let same_key : record_key table j ≡ record_key table s =
                ap (record_key table) (ground arith) in
              (
                r,
                es,
                ap (contents 𝒯 tables c'.db) same_key
                    ∙ rest.others (record_key table s)
                        (λ i lo' hi'. apart i s (omega arith) (omega arith) (omega arith))
                    ∙ at_s,
                fields,
                holds,
              )
          | inr other ↦ rest.loaded j (ground arith) (omega arith)
        ];
        others = λ q ne.
            rest.others q (λ j lo hi. ne j (omega arith) (omega arith))
            ∙ ap (λ st. st q) is_db
            ∙ rw (ne s (omega arith) (omega arith)) refl;
      }

  loads :
      (fuel n m s oks : ℕ) (c : Client 𝒫 (hashtable_db 𝒯))
      → CanLoad s (n + m) c
      → (c' : Client 𝒫 (hashtable_db 𝒯)) × (delegate_from 𝒫 (hashtable_db 𝒯) fuel n true oks c
          ≡ ok (oks + n, c'))
        × CanLoad (s + n) m c'
        × Loaded s n c c'
  unfolding delegate_from round
  loads fuel zero m s oks c h = (
    c,
    ap (λ k. ok (k, c)) (omega arith),
    fewer s (s + 0) (0 + m) m c (omega arith) (omega arith) h,
    Loaded-none s c,
  )
  loads fuel (suc n) m s oks c h =
      let key = codes "user" ++ to_string s in
      let wl = c.world.workload in
      let named : build_key_name 𝒫 wl wl.key_generator.counter ≡ ok key =
        build_key_name-ok 𝒫 wl wl.key_generator.counter (omega (arith, h.room))
        ∙ rw (h.ordered, h.counter_is)
            (ap (λ i. ok (codes "user" ++ to_string i)) (mod-eq_of_lt (omega (arith, h.room)))) in
      let (es, r, g, e, cr, db, ran, fill', valid', is_db, fields, holds) =
        do_insert-Holds 𝒫 draws 𝒯 tables c key h.fill h.fields_fit h.valid named
          (h.absent s (omega arith) (omega arith)) in
      let (c', rest, can, loaded) = loads fuel n m (s + 1) (oks + 1) (after c.world g e cr db) (
        step-CanLoad s (n + m) c r g e cr db
          (fewer s s (suc n + m) (suc (n + m)) c refl (omega arith) h) fill' valid' is_db) in
      (
        c',
        rw (ran, ◌>>=◌, rest) (ap (λ k. ok (k, c')) (omega arith)),
        fewer (s + 1 + n) (s + suc n) m m c' (omega arith) (omega arith) can,
        step-Loaded s n c c' r es g e cr db (fewer s s (suc n + m) (suc n) c refl (omega arith) h)
            is_db fields holds loaded,
      )

  -- Loading with ordered inserts into a database that has none of the next keys, with room for `m`
  -- more: `DelegateClient` ends and counts every insert as done.
  pub delegate_client-Loaded :
      (fuel s m : ℕ) (num_ops : ℤ) (c : Client 𝒫 (hashtable_db 𝒯))
      → CanLoad s (rounds num_ops + m) c
      → (c' : Client 𝒫 (hashtable_db 𝒯)) × (delegate_client 𝒫 (hashtable_db 𝒯) fuel num_ops true c
          ≡ ok (rounds num_ops, c'))
        × CanLoad (s + rounds num_ops) m c'
        × Loaded s (rounds num_ops) c c'
  unfolding delegate_client
  delegate_client-Loaded fuel s m num_ops c h =
      let (c', run, can, loaded) = loads fuel (rounds num_ops) m s 0 c h in
      (c', run ∙ ap (λ k. ok (k, c')) (omega arith), can, loaded)
