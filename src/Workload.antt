-- ===== src/Workload.antt =====
-- core/core_workload.h and core/core_workload.cc: the class `CoreWorkload` after `Init`.
pub mod Names
pub mod Choosers
pub mod Values
pub mod Keys
pub mod Init
use ycsb_c_copy.Db.{KvPair}
use ycsb_c_copy.Generator.Counter
use ycsb_c_copy.Generator.Counter.{CounterGenerator, ConstGenerator}
use ycsb_c_copy.Generator.Discrete
use ycsb_c_copy.Generator.Discrete.{DiscreteGenerator}
use ycsb_c_copy.Generator.Scrambled
use ycsb_c_copy.Generator.Scrambled.{ScrambledZipfianGenerator, SkewedLatestGenerator}
use ycsb_c_copy.Generator.Uniform
use ycsb_c_copy.Generator.Uniform.{UniformGenerator}
use ycsb_c_copy.Generator.Zipfian
use ycsb_c_copy.Generator.Zipfian.{ZipfianGenerator}
use ycsb_c_copy.Number.{to_string}
use ycsb_c_copy.Platform.{Platform}
use ycsb_c_copy.Prelude.Int.{ℤ, to_u64, rounds}
use ycsb_c_copy.Prelude.{
  ℕ, zero, suc, ◌+◌, ◌-◌, ◌%◌, ◌^◌, Bool, true, false, List, [], ◌∷◌, ◌++◌, Option, none, some, ltb,
  if◌then◌else◌, Bytes, codes, replicate,
}
use ycsb_c_copy.Run.{Run, ok, fault, undefined, still_running, ◌>>=◌}
use ycsb_c_copy.Utils.{hash, random_print_char}

pub data Operation : Type 0 where
  insert read update scan read_modify_write : Operation

-- A `Generator<uint64_t>` by its class.
pub data Generator (𝒫 : Platform) : Type 0 where
  const : ConstGenerator → Generator 𝒫
  uniform : UniformGenerator 𝒫 → Generator 𝒫
  zipfian : ZipfianGenerator 𝒫 → Generator 𝒫
  scrambled : ScrambledZipfianGenerator 𝒫 → Generator 𝒫
  skewed : SkewedLatestGenerator 𝒫 → Generator 𝒫

pub record CoreWorkload (𝒫 : Platform) : Type 0 where
  pub table_name : Bytes
  pub field_count : ℤ
  pub read_all_fields : Bool
  pub write_all_fields : Bool
  pub field_len_generator : Generator 𝒫
  pub key_generator : CounterGenerator
  pub op_chooser : DiscreteGenerator 𝒫 Operation
  pub key_chooser : Generator 𝒫
  pub field_chooser : Generator 𝒫
  pub scan_len_chooser : Generator 𝒫
  pub insert_key_sequence : CounterGenerator
  pub ordered_inserts : Bool
  pub record_count : ℕ
  pub zero_padding : ℤ

-- The workload with the two global sources of chance.
pub record World (𝒫 : Platform) : Type 0 where
  pub workload : CoreWorkload 𝒫
  pub engine : 𝒫.Engine
  pub crand : 𝒫.Crand

-- `BuildKeyName`; a remainder by zero is undefined.
unfoldable pub reduce_key : Bool → ℕ → ℕ → Run ℕ
reduce_key ordered zero key_num = fault undefined
reduce_key ordered record_count key_num =
    ok ((if ordered then key_num else hash key_num) % record_count)

-- A field's name, in `NextFieldName` and in `BuildValues`.
abbrev pub field_name : ℕ → Bytes
field_name n = codes "field" ++ to_string n

module _ (𝒫 : Platform) where
  unfoldable pub build_key_name : CoreWorkload 𝒫 → ℕ → Run Bytes
  unfolding reduce_key
  build_key_name wl key_num = do
    n ← reduce_key wl.ordered_inserts wl.record_count key_num
    ok (codes "user" ++ to_string n)

  -- The virtual `Next()`. `basis` is the counter behind a `SkewedLatestGenerator`.
  unfoldable pub next_value :
      CounterGenerator → Generator 𝒫 → 𝒫.Engine → Run (ℕ × Generator 𝒫 × 𝒫.Engine)
  next_value basis (const g) e = ok (Counter.next_const g, const g, e)
  next_value basis (uniform g) e = let (v, g') = Uniform.next 𝒫 g in ok (v, uniform g', e)
  next_value basis (zipfian g) e = do (v, g', e') ← Zipfian.next 𝒫 g e; ok (v, zipfian g', e')
  next_value basis (scrambled g) e = do
    (v, g', e') ← Scrambled.next_scrambled 𝒫 g e
    ok (v, scrambled g', e')
  next_value basis (skewed g) e = do
    (v, g', e') ← Scrambled.next_skewed 𝒫 basis g e
    ok (v, skewed g', e')

  unfoldable pub next_sequence_key : World 𝒫 → Run (Bytes × World 𝒫)
  next_sequence_key w = do
    let (key_num, g) = Counter.next w.workload.key_generator
    key ← build_key_name w.workload key_num
    ok (key, record w { workload = record w.workload { key_generator = g } })

  -- One draw of the key chooser.
  unfoldable pub draw_key : World 𝒫 → Run (ℕ × World 𝒫)
  draw_key w = do
    (v, g, e) ← next_value w.workload.insert_key_sequence w.workload.key_chooser w.engine
    ok (v, record w { workload = record w.workload { key_chooser = g }; engine = e })

  -- The loop of `NextTransactionKey`, with fuel for its rounds.
  unfoldable pub draw_inserted_key : ℕ → World 𝒫 → Run (ℕ × World 𝒫)
  draw_inserted_key zero w = fault still_running
  draw_inserted_key (suc fuel) w = do
    (key_num, w') ← draw_key w
    elim (ltb (Counter.last w'.workload.insert_key_sequence) key_num) [
      | true ↦ draw_inserted_key fuel w'
      | false ↦ ok (key_num, w')
    ]

  unfoldable pub next_transaction_key : ℕ → World 𝒫 → Run (Bytes × World 𝒫)
  next_transaction_key fuel w = do
    (key_num, w') ← draw_inserted_key fuel w
    key ← build_key_name w'.workload key_num
    ok (key, w')

  unfoldable pub next_operation : World 𝒫 → Run (Operation × World 𝒫)
  next_operation w = do
    (o, g, e) ← Discrete.next 𝒫 w.workload.op_chooser w.engine
    ok (o, record w { workload = record w.workload { op_chooser = g }; engine = e })

  unfoldable pub next_field_name : World 𝒫 → Run (Bytes × World 𝒫)
  next_field_name w = do
    (v, g, e) ← next_value w.workload.insert_key_sequence w.workload.field_chooser w.engine
    ok (field_name v, record w { workload = record w.workload { field_chooser = g }; engine = e })

  unfoldable pub next_scan_length : World 𝒫 → Run (ℕ × World 𝒫)
  next_scan_length w = do
    (v, g, e) ← next_value w.workload.insert_key_sequence w.workload.scan_len_chooser w.engine
    ok (v, record w { workload = record w.workload { scan_len_chooser = g }; engine = e })

  -- A value of a drawn length, one printable character throughout.
  unfoldable pub next_field_value : World 𝒫 → Run (Bytes × World 𝒫)
  next_field_value w = do
    (len, g, e) ← next_value w.workload.insert_key_sequence w.workload.field_len_generator w.engine
    let (r, c) = 𝒫.rand w.crand
    ok (
      replicate len (random_print_char r),
      record { workload = record w.workload { field_len_generator = g }; engine = e; crand = c },
    )

  -- The loop of `BuildValues`, by the rounds left; `i` is the loop's variable.
  unfoldable pub build_values_from : ℕ → ℕ → World 𝒫 → Run (List KvPair × World 𝒫)
  build_values_from zero i w = ok ([], w)
  build_values_from (suc n) i w = do
    (value, w') ← next_field_value w
    (rest, w'') ← build_values_from n (i + 1) w'
    ok ((field_name i, value) ∷ rest, w'')

  unfoldable pub build_values : World 𝒫 → Run (List KvPair × World 𝒫)
  unfolding build_values_from
  build_values w = build_values_from (rounds w.workload.field_count) 0 w

  unfoldable pub build_update : World 𝒫 → Run (List KvPair × World 𝒫)
  build_update w = do
    (name, w') ← next_field_name w
    (value, w'') ← next_field_value w'
    ok ((name, value) ∷ [], w'')
