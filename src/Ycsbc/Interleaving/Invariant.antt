-- ===== src/Ycsbc/Interleaving/Invariant.antt =====
-- What holds between any two calls of the threads that load.
use ycsb_c_copy.Client.Loading.{counted, insert-Holds}
use ycsb_c_copy.Client.{Client}
use ycsb_c_copy.Db.{KvPair, k_ok}
use ycsb_c_copy.Generator.Counter
use ycsb_c_copy.Generator.Uniform
use ycsb_c_copy.HashtableDb
use ycsb_c_copy.HashtableDb.Fields.{Record, AreTables}
use ycsb_c_copy.HashtableDb.Interface.{hashtable_db}
use ycsb_c_copy.HashtableDb.Refinement.{contents, IsValid}
use ycsb_c_copy.HashtableDb.{Tables, KeyHashtable}
use ycsb_c_copy.Number.RoundTrip.{NoNul}
use ycsb_c_copy.Number.{to_string}
use ycsb_c_copy.Platform.{Platform}
use ycsb_c_copy.Prelude.Int.{rounds}
use ycsb_c_copy.Prelude.{
  ℕ, zero, suc, ◌+◌, ◌^◌, ◌%◌, ◌≤◌, ◌<◌, ◌≡◌, ◌≢◌, refl, sym, ◌∙◌, ap, subst, true, false, List,
  ◌∷◌, ◌++◌, Option, none, some, Bytes, codes, equal, equal_refl, arith, ◌==◌, Bool-cases, inl, inr,
  ltb, if◌then◌else◌,
}
use native.Mathlib.Nat.{mod-eq_of_lt}
use ycsb_c_copy.Run.{ok, fault}
use ycsb_c_copy.Workload.Names.{build_key_name-ok}
use ycsb_c_copy.Workload.Values.{AreFields, CanFill, moved, build_values-AreFields}
use ycsb_c_copy.Workload.{World, build_key_name, next_sequence_key, build_values}
use ycsb_c_copy.Ycsbc.Interleaving.Sums.{
  left_of, oks_of, flying_of, holds_of, calls_of, total, All, All-more,
}
use ycsb_c_copy.Ycsbc.Interleaving.{Thread, idle, drawn, built, Acts, draws, builds, inserts}
use ycsb_c_copy.Ycsbc.Loading.{IsLoaded}
use ycsb_c_copy.Ycsbc.RecordKeys.{record_key, equal-record_key}

abbrev pub is_there : Option Record → ℕ
is_there none = 0
is_there (some r) = 1

abbrev pub name_of : ℕ → Bytes
name_of j = codes "user" ++ to_string j

-- A key that was drawn: its number is from `s` on and below the counter.
abbrev pub IsDrawn : ℕ → ℕ → Bytes → Type 0
IsDrawn s counter key = (j : ℕ) × (s ≤ j) × (j < counter) × (key ≡ name_of j)

-- A thread inside a round has such a key, and the fields of the workload once they are built.
abbrev pub IsGood : ℕ → ℕ → ℕ → Thread → Type 0
IsGood s counter fields (idle n oks) = Unit
IsGood s counter fields (drawn n oks key) = IsDrawn s counter key
IsGood s counter fields (built n oks key es) = IsDrawn s counter key × AreFields fields 0 es

IsGood-more :
    (s counter fields : ℕ) (t : Thread)
    → IsGood s counter fields t
    → IsGood s (counter + 1) fields t
IsGood-more s counter fields (idle n oks) h = tt
IsGood-more s counter fields (drawn n oks key) (j, lo, hi, e) = (j, lo, omega arith, e)
IsGood-more s counter fields (built n oks key es) ((j, lo, hi, e), h) = ((j, lo, omega arith, e), h)

module _ (𝒫 : Platform) (can : Uniform.DrawsWithin 𝒫) (𝒯 : Tables) (tables : AreTables 𝒯) where
  -- `N` rounds from key number `s` on are begun, going on, or done; the table's name, the number of
  -- fields and the database at the start are given.
  pub record Inv (table : Bytes) (fields s N : ℕ) (before : KeyHashtable 𝒯)
      (c : Client 𝒫 (hashtable_db 𝒯)) (ts : List Thread) : Type 0 where
    pub same_table : c.world.workload.table_name ≡ table
    pub same_fields : rounds c.world.workload.field_count ≡ fields
    pub named : NoNul table
    pub fields_fit : fields ≤ 2 ^ 64
    pub ordered : c.world.workload.ordered_inserts ≡ true
    pub room : s + N ≤ c.world.workload.record_count
    pub small : c.world.workload.record_count < 2 ^ 64
    pub fill : CanFill 𝒫 can c.world
    pub valid : IsValid 𝒯 tables c.db
    pub begun : c.world.workload.key_generator.counter + total left_of ts ≡ s + N
    pub since : s ≤ c.world.workload.key_generator.counter
    pub counts : total oks_of ts + total flying_of ts + total left_of ts ≡ N
    pub good : All (IsGood s c.world.workload.key_generator.counter fields) ts
    -- A key is taken by one thread, or in the database, from when its number was drawn.
    pub taken :
        (j : ℕ)
        → s ≤ j
        → j < s + N
        → total (holds_of table (record_key table j)) ts
            + is_there (contents 𝒯 tables c.db (record_key table j))
          ≡ (if ltb j c.world.workload.key_generator.counter then 1 else 0)
    pub loaded :
        (j : ℕ)
        → s ≤ j
        → j < s + N
        → (r : Record) → contents 𝒯 tables c.db (record_key table j) ≡ some r
        → IsLoaded fields (some r)
    pub others :
        (q : Bytes)
        → ((j : ℕ) → s ≤ j → j < s + N → equal (record_key table j) q ≡ false)
        → contents 𝒯 tables c.db q ≡ contents 𝒯 tables before q

  module _ (table : Bytes) (fields s N : ℕ) (before : KeyHashtable 𝒯) where
    apart :
        (c : Client 𝒫 (hashtable_db 𝒯)) (ts : List Thread)
        → Inv table fields s N before c ts
        → (i j : ℕ) → i < s + N
        → j < s + N
        → i ≢ j
        → equal (record_key table i) (record_key table j) ≡ false
    apart c ts h i j hi hj =
        equal-record_key table i j h.named (omega (arith, h.room, h.small))
          (omega (arith, h.room, h.small))

    -- The next key of the workload.
    next_key :
        (c : Client 𝒫 (hashtable_db 𝒯)) (ts : List Thread) (n oks : ℕ)
        → Inv table fields s N before c (idle (suc n) oks ∷ ts)
        → next_sequence_key 𝒫 c.world
          ≡ ok (name_of c.world.workload.key_generator.counter, counted 𝒫 c.world)
    unfolding next_sequence_key Counter.next
    next_key c ts n oks h =
        let wl = c.world.workload in
        let named : build_key_name 𝒫 wl wl.key_generator.counter
            ≡ ok (name_of wl.key_generator.counter) =
          build_key_name-ok 𝒫 wl wl.key_generator.counter (omega (arith, h.room, h.begun))
          ∙ rw h.ordered (
              ap (λ i. ok (codes "user" ++ to_string i))
                (mod-eq_of_lt (omega (arith, h.room, h.begun)))) in
        rw named

    draws-Inv :
        (c : Client 𝒫 (hashtable_db 𝒯)) (ts : List Thread) (n oks : ℕ)
        → Inv table fields s N before c (idle (suc n) oks ∷ ts)
        → Inv table fields s N before
            (record c { world = counted 𝒫 c.world })
            (drawn n oks (name_of c.world.workload.key_generator.counter) ∷ ts)
    unfolding Counter.next
    draws-Inv c ts n oks h =
        let k = c.world.workload.key_generator.counter in
        let up : (k + 1) % 2 ^ 64 ≡ k + 1 =
          mod-eq_of_lt (omega (arith, h.begun, h.room, h.small)) in
        record {
          same_table = h.same_table;
          same_fields = h.same_fields;
          named = h.named;
          fields_fit = h.fields_fit;
          ordered = h.ordered;
          room = h.room;
          small = h.small;
          fill = h.fill;
          valid = h.valid;
          begun = omega (arith, h.begun, up);
          since = omega (arith, h.since, up);
          counts = omega (arith, h.counts);
          good =
              subst (λ x. All (IsGood s x fields) (drawn n oks (name_of k) ∷ ts)) (sym up)
                ((
                  (k, h.since, omega arith, refl),
                  All-more _ _ ts (IsGood-more s k fields) h.good.1,
                ));
          taken = λ j lo hi.
              let old = h.taken j lo hi in
              subst
                (λ x.
                  total (holds_of table (record_key table j)) (drawn n oks (name_of k) ∷ ts)
                    + is_there (contents 𝒯 tables c.db (record_key table j))
                  ≡ (if ltb j x then 1 else 0))
                (sym up)
                (elim (Bool-cases (k == j)) [
                  | inl same ↦
                      let own : equal (record_key table k) (record_key table j) ≡ true =
                        subst (λ i. equal (record_key table k) (record_key table i) ≡ true)
                          (ground arith) (equal_refl (record_key table k)) in
                      rw own (ground (arith, old))
                  | inr other ↦
                      rw
                        (apart c (idle (suc n) oks ∷ ts) h k j (omega (arith, h.begun)) hi
                          (ground arith))
                        (ground (arith, old))
                ]);
          loaded = h.loaded;
          others = h.others;
        }

    builds-Inv :
        (c : Client 𝒫 (hashtable_db 𝒯)) (ts : List Thread) (n oks : ℕ) (key : Bytes)
        → Inv table fields s N before c (drawn n oks key ∷ ts)
        → (es : List KvPair) × (w : World 𝒫) × (build_values 𝒫 c.world ≡ ok (es, w))
          × Inv table fields s N before (record c { world = w }) (built n oks key es ∷ ts)
    builds-Inv c ts n oks key h =
        let (es, g, e, cr, run, fill', are) = build_values-AreFields 𝒫 can c.world h.fill in
        (
          es,
          moved 𝒫 can c.world g e cr,
          run,
          record {
            same_table = h.same_table;
            same_fields = h.same_fields;
            named = h.named;
            fields_fit = h.fields_fit;
            ordered = h.ordered;
            room = h.room;
            small = h.small;
            fill = fill';
            valid = h.valid;
            begun = h.begun;
            since = h.since;
            counts = h.counts;
            good = ((h.good.0, subst (λ i. AreFields i 0 es) h.same_fields are), h.good.1);
            taken = h.taken;
            loaded = h.loaded;
            others = h.others;
          },
        )

    none_there : (o : Option Record) → is_there o ≡ 0 → o ≡ none
    none_there none h = refl
    none_there (some r) h = absurd (omega arith)

    -- A thread that holds the key holds it alone, and the database does not have it.
    alone :
        (c : Client 𝒫 (hashtable_db 𝒯)) (ts : List Thread) (n oks j : ℕ) (es : List KvPair)
        → s ≤ j
        → j < c.world.workload.key_generator.counter
        → Inv table fields s N before c (built n oks (name_of j) es ∷ ts)
        → (total (holds_of table (record_key table j)) ts ≡ 0)
          × (contents 𝒯 tables c.db (record_key table j) ≡ none)
          × (j < s + N)
    alone c ts n oks j es lo hi h =
        let within : j < s + N = omega (arith, h.begun) in
        let old = rw (equal_refl (record_key table j)) at (h.taken j lo within) in
        (
          ground (arith, old),
          none_there (contents 𝒯 tables c.db (record_key table j)) (ground (arith, old)),
          within,
        )

    inserts-Inv :
        (c : Client 𝒫 (hashtable_db 𝒯)) (ts : List Thread) (n oks j : ℕ) (es : List KvPair)
        → s ≤ j
        → j < c.world.workload.key_generator.counter
        → Inv table fields s N before c (built n oks (name_of j) es ∷ ts)
        → (db : KeyHashtable 𝒯) × (HashtableDb.insert 𝒯 c.world.workload.table_name
              (name_of j)
              es
              c.db
            ≡ ok (k_ok, db))
          × Inv table fields s N before (record c { db = db }) (idle n (oks + 1) ∷ ts)
    inserts-Inv c ts n oks j es lo hi h =
        let (free, absent, within) = alone c ts n oks j es lo hi h in
        let (r, db, run, valid', is_db, holds) =
          insert-Holds 𝒯 tables table (name_of j) fields es c.db h.valid h.fields_fit h.good.0.1
            absent in
        let at_j : contents 𝒯 tables db (record_key table j) ≡ some r =
          ap (λ st. st (record_key table j)) is_db ∙ rw (equal_refl (record_key table j)) in
        let elsewhere : (i : ℕ)
            → i < s + N
            → j ≢ i
            → contents 𝒯 tables db (record_key table i)
              ≡ contents 𝒯 tables c.db (record_key table i) =
          λ i le ne.
            ap (λ st. st (record_key table i)) is_db
            ∙ rw (apart c (built n oks (name_of j) es ∷ ts) h j i within le ne) in
        (
          db,
          rw h.same_table run,
          record {
            same_table = h.same_table;
            same_fields = h.same_fields;
            named = h.named;
            fields_fit = h.fields_fit;
            ordered = h.ordered;
            room = h.room;
            small = h.small;
            fill = h.fill;
            valid = valid';
            begun = h.begun;
            since = h.since;
            counts = omega (arith, h.counts);
            good = (tt, h.good.1);
            taken = λ i lo' hi'. elim (Bool-cases (j == i)) [
              | inl same ↦
                  let e : j ≡ i = ground arith in
                  subst
                    (λ x.
                      total (holds_of table (record_key table x)) (idle n (oks + 1) ∷ ts)
                        + is_there (contents 𝒯 tables db (record_key table x))
                      ≡ (if ltb x c.world.workload.key_generator.counter then 1 else 0))
                    e (rw at_j (ground (arith, free)))
              | inr other ↦ rw (elsewhere i hi' (ground arith)) (
                  let old =
                    rw (apart c (built n oks (name_of j) es ∷ ts) h j i within hi' (ground arith))
                      at (h.taken i lo' hi') in
                  ground (arith, old))
            ];
            loaded = λ i lo' hi' q got. elim (Bool-cases (j == i)) [
              | inl same ↦
                  let e : j ≡ i = ground arith in
                  let is_q : some q ≡ some r =
                    sym got ∙ ap (λ x. contents 𝒯 tables db (record_key table x)) (sym e) ∙ at_j in
                  (r, es, is_q, h.good.0.1, holds)
              | inr other ↦ h.loaded i lo' hi' q (sym (elsewhere i hi' (ground arith)) ∙ got)
            ];
            others = λ q ne. ap (λ st. st q) is_db ∙ rw (ne j lo within) (h.others q ne);
          },
        )

    ok_injective : {A : Type 0} (a b : A) → ok a ≡ ok b → a ≡ b
    ok_injective a b e = ap (λ r. elim r [ ok x ↦ x | fault f ↦ a ]) e

    -- Any call of a thread keeps it.
    pub Acts-Inv :
        {c c' : Client 𝒫 (hashtable_db 𝒯)} {t t' : Thread} (ts : List Thread)
        → Acts 𝒫 (hashtable_db 𝒯) c t c' t'
        → Inv table fields s N before c (t ∷ ts)
        → Inv table fields s N before c' (t' ∷ ts)
    Acts-Inv ts (draws c n oks key w e) h =
        subst
          (λ (r : Bytes × World 𝒫).
            Inv table fields s N before (record c { world = r.1 }) (drawn n oks r.0 ∷ ts))
          (ok_injective _ (key, w) (sym (next_key c ts n oks h) ∙ e)) (draws-Inv c ts n oks h)
    Acts-Inv ts (builds c n oks key es w e) h =
        let (es', w', run, h') = builds-Inv c ts n oks key h in
        subst
          (λ (r : List KvPair × World 𝒫).
            Inv table fields s N before (record c { world = r.1 }) (built n oks key r.0 ∷ ts))
          (ok_injective _ (es, w) (sym run ∙ e)) h'
    Acts-Inv ts (inserts c n oks key es code db e) h =
        let (j, lo, hi, is_key) = h.good.0.0 in
        let h1 = subst (λ k. Inv table fields s N before c (built n oks k es ∷ ts)) is_key h in
        let (db', run, h') = inserts-Inv c ts n oks j es lo hi h1 in
        let run' : HashtableDb.insert 𝒯 c.world.workload.table_name key es c.db ≡ ok (k_ok, db') =
          ap (λ k. HashtableDb.insert 𝒯 c.world.workload.table_name k es c.db) is_key ∙ run in
        subst
          (λ (r : ℕ × KeyHashtable 𝒯).
            Inv table fields s N before (record c { db = r.1 })
              (idle n (oks + (if r.0 == k_ok then 1 else 0)) ∷ ts))
          (ok_injective _ (code, db) (sym run' ∙ e)) h'

    -- A thread that has a call to make can make it.
    pub can_act :
        (c : Client 𝒫 (hashtable_db 𝒯)) (t : Thread) (ts : List Thread)
        → 0 < calls_of t
        → Inv table fields s N before c (t ∷ ts)
        → (c' : Client 𝒫 (hashtable_db 𝒯)) × (t' : Thread) × Acts 𝒫 (hashtable_db 𝒯) c t c' t'
    can_act c (idle zero oks) ts some_left h = absurd (omega arith)
    can_act c (idle (suc n) oks) ts some_left h = (_, _, draws c n oks _ _ (next_key c ts n oks h))
    can_act c (drawn n oks key) ts some_left h =
        let (es, w, run, h') = builds-Inv c ts n oks key h in (_, _, builds c n oks key es w run)
    can_act c (built n oks key es) ts some_left h =
        let (j, lo, hi, is_key) = h.good.0.0 in
        let h1 = subst (λ k. Inv table fields s N before c (built n oks k es ∷ ts)) is_key h in
        let (db', run, h') = inserts-Inv c ts n oks j es lo hi h1 in
        (
          _,
          _,
          inserts c n oks key es k_ok db'
              (ap (λ k. HashtableDb.insert 𝒯 c.world.workload.table_name k es c.db) is_key ∙ run),
        )
