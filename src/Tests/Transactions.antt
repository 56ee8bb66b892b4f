-- ===== src/Tests/Transactions.antt =====
-- Transactions on loaded records.
use ycsb_c_copy.Client.FieldReads.{OnlyFields, transaction_read_empty}
use ycsb_c_copy.Client.{Client, transaction_read}
use ycsb_c_copy.Generator.Counter
use ycsb_c_copy.Generator.Discrete
use ycsb_c_copy.Generator.Uniform
use ycsb_c_copy.Generator.Uniform.{UniformGenerator}
use ycsb_c_copy.HashString.{set_value}
use ycsb_c_copy.HashString.Sdbm.{wrapped_lem}
use ycsb_c_copy.Hashtable
use ycsb_c_copy.Hashtable.Lookup.{view}
use ycsb_c_copy.HashtableDb.Interface.{lock_stl_db, lock_stl_tables}
use ycsb_c_copy.Hashtable.Table.{IsGood}
use ycsb_c_copy.HashtableDb.Instances.{lock_stl_tables-AreTables}
use ycsb_c_copy.HashtableDb.Refinement.{IsValid}
use ycsb_c_copy.HashtableDb.{KeyHashtable, FieldHashtable}
use ycsb_c_copy.Number.{to_string, write_digits}
use ycsb_c_copy.Prelude.Int.{pos}
use ycsb_c_copy.Prelude.{
  ℕ, ◌≡◌, ◌<◌, refl, true, false, [], ◌∷◌, some, codes, arith, Bytes, Option-cases, inl, inr,
  equal_iff, subst, sym, ap, ◌∙◌,
}
use ycsb_c_copy.Run.{ok}
use ycsb_c_copy.Tests.Machine.{machine, machine_draws, three, small_world}
use ycsb_c_copy.Workload.Init.Operations.{proportion_of, next_operation-Positive}
use ycsb_c_copy.Workload.Init.{choose_operations}
use ycsb_c_copy.Workload.Keys.{with_chooser, next_transaction_key_uniform}
use ycsb_c_copy.BlockDb.{real_key}
use ycsb_c_copy.Workload.{
  World, read, uniform, next_operation, next_transaction_key, draw_inserted_key, draw_key,
  next_value, build_key_name, field_name,
}
use ycsb_c_copy.HashtableDb.Scans.{picked, HaveRecords, AreApart, StartAt, scan-picked}
use ycsb_c_copy.HashtableDb.{scan}
use ycsb_c_copy.HashtableDb.Refinement.{contents, key_of}
use ycsb_c_copy.Prelude.Int.{to_u64, pos}
use ycsb_c_copy.Prelude.{suc, List, [], ◌∷◌, some}
use ycsb_c_copy.Db.{k_ok}

three-IsValid : Uniform.IsValid machine three
three-IsValid = record { ordered = omega arith; low = omega arith; high = omega arith }

next_transaction_key_uniform_example :
    (key : Bytes) × (i : ℕ) × (g' : UniformGenerator machine) × (next_transaction_key machine 1
        (small_world true 0)
      ≡ ok (key, with_chooser machine (small_world true 0) (uniform g')))
    × (real_key key ≡ ok (pos i))
    × (i < 3)
    × Uniform.IsValid machine g'
    × (g'.dist_max ≡ 2)
next_transaction_key_uniform_example =
    next_transaction_key_uniform machine machine_draws (small_world true 0) three refl three-IsValid
      (unfold Counter.last in omega arith) (omega arith) (omega arith)

-- The world after a first draw of the operations' chooser, which gives a read.
abbrev after_read : World machine
after_read =
    let w = small_world true 0 in
    record w {
      workload = record w.workload {
        op_chooser = record w.workload.op_chooser { last = some read };
      };
      engine = 12;
    }

draws_read : next_operation machine (small_world true 0) ≡ ok (read, after_read)
unfolding next_operation Discrete.next choose_operations Discrete.add_value
draws_read = refl

next_operation-Positive_example :
    (machine.less (machine.literal 0 1) (proportion_of machine 500000 300000 200000 0 0 read)
      ≡ true)
    × (after_read.workload.op_chooser.values
        ≡ (choose_operations machine 500000 300000 200000 0 0).values)
next_operation-Positive_example =
    next_operation-Positive machine 500000 300000 200000 0 0 (small_world true 0) after_read read
      refl draws_read

-- A database with one record, under the key that the draw gives.
abbrev one_field : FieldHashtable lock_stl_tables
one_field = (set_value (field_name 0), codes "x") ∷ []

abbrev one_record : KeyHashtable lock_stl_tables
one_record = (set_value (codes "tuser2"), one_field) ∷ []

-- What a table of one node maps a text to.
view_single :
    {V : Type 0} (a k : Bytes) (b t : V)
    → view ((set_value a, b) ∷ []) k ≡ some t
    → (a ≡ k) × (b ≡ t)
unfolding view Hashtable.find
view_single a k b t h = ground (arith, (wrapped_lem a k).1, equal_iff a k)

one_record-IsValid : IsValid lock_stl_tables lock_stl_tables-AreTables one_record
unfolding Hashtable.find set_value
one_record-IsValid = record {
  good = ((refl, tt), (refl, tt));
  fields = λ k t e.
      subst IsGood (view_single (codes "tuser2") k one_field t e).1 (((refl, tt), (refl, tt)));
}

one_record-OnlyFields : OnlyFields lock_stl_tables lock_stl_tables-AreTables one_record
one_record-OnlyFields k q v r at here = elim (Option-cases (view one_record k)) [
  | inl e ↦ cc (rw e at at)
  | inr (t, e) ↦
      let is_t = (view_single (codes "tuser2") k one_field t e).1 in
      let is_r : view one_field ≡ r = cc in
      (0, sym (view_single (field_name 0) q (codes "x") v (ap (λ f. f q) is_r ∙ here)).0)
]

abbrev reader : Client machine lock_stl_db
reader = record { world = small_world false 0; db = one_record }

abbrev reader_draws : World machine
reader_draws =
    with_chooser machine (small_world false 0)
      (uniform (record three { generator = 6; last_int = 2 }))

draws_record :
    next_transaction_key machine 1 (small_world false 0) ≡ ok (codes "user2", reader_draws)
unfolding next_transaction_key draw_inserted_key draw_key next_value Uniform.next Counter.last
    build_key_name to_string write_digits
draws_record = refl

transaction_read_empty_example :
    (code : ℕ) × (c' : Client machine lock_stl_db) × (transaction_read machine lock_stl_db 1 reader
      ≡ ok (code, [], c'))
transaction_read_empty_example =
    transaction_read_empty machine machine_draws lock_stl_tables lock_stl_tables-AreTables reader 1
      (codes "user2") reader_draws draws_record refl
      (record { ordered = omega arith; low = omega arith; high = omega arith }) one_record-IsValid
      one_record-OnlyFields

three_lem : to_u64 (pos 3) ≡ suc 2
three_lem = refl

scan-picked_example :
    (ks : List Bytes) × (scan lock_stl_tables
        (codes "t")
        (codes "user2")
        (pos 3)
        (some (field_name 0 ∷ []))
        []
        one_record
      ≡ ok (
        k_ok,
        picked
            (contents lock_stl_tables lock_stl_tables-AreTables one_record)
            (field_name 0 ∷ [])
            ks,
        one_record,
      ))
    × HaveRecords (contents lock_stl_tables lock_stl_tables-AreTables one_record) ks
    × AreApart ks
    × StartAt
        (contents lock_stl_tables lock_stl_tables-AreTables one_record
          (key_of (codes "t") (codes "user2")))
        (key_of (codes "t") (codes "user2"))
        2
        ks
scan-picked_example =
    scan-picked lock_stl_tables lock_stl_tables-AreTables one_record one_record-IsValid (codes "t")
      (codes "user2") (pos 3) 2 (field_name 0 ∷ []) [] three_lem
