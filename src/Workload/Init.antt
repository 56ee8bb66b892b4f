-- ===== src/Workload/Init.antt =====
-- `CoreWorkload::Init` and the names and defaults of its properties.
pub mod Operations
use ycsb_c_copy.Generator.Counter
use ycsb_c_copy.Generator.Discrete
use ycsb_c_copy.Generator.Discrete.{DiscreteGenerator}
use ycsb_c_copy.Generator.Scrambled
use ycsb_c_copy.Generator.Uniform
use ycsb_c_copy.Generator.Zipfian
use ycsb_c_copy.Number.{stoi}
use ycsb_c_copy.Platform.{Platform}
use ycsb_c_copy.Prelude.Int.{ℤ, to_u64}
use ycsb_c_copy.Prelude.{
  ℕ, ◌+◌, ◌-◌, ◌%◌, ◌^◌, Bool, true, false, not, List, [], ◌∷◌, ◌++◌, Option, none, some,
  if◌then◌else◌, Bytes, codes, equal,
}
use ycsb_c_copy.Properties.{Properties, get_property}
use ycsb_c_copy.Run.{Run, ok, fault, exception, ◌>>=◌}
use ycsb_c_copy.Utils.{str_to_bool}
use ycsb_c_copy.Workload.{
  Operation, insert, read, update, scan, read_modify_write, Generator, const, uniform, zipfian,
  scrambled, skewed, CoreWorkload,
}
use Prim.Native.String.{String}

-- A property by its name, with the default's text.
abbrev text : Properties → String → String → Bytes
text p name default = get_property p (codes name) (codes default)

-- `std::stoi` of a property.
abbrev int : Properties → String → String → Run ℤ
int p name default = stoi (text p name default)

-- A number less one, as a `uint64_t`.
abbrev less_one : ℕ → ℕ
less_one n = (n + 2 ^ 64 - 1) % 2 ^ 64

-- `+` of exceptions' texts.
abbrev unknown {ℓ} : {A : Type ℓ} → String → Bytes → Run A
unknown message name = fault (exception (codes message ++ name))

module _ (𝒫 : Platform) where
  open 𝒫 use {Double, Engine}

  -- `std::stod` of a property.
  abbrev double : Properties → String → String → Run Double
  double p name default = 𝒫.stod (text p name default)

  unfoldable pub get_field_len_generator : Properties → Engine → Run (Generator 𝒫 × Engine)
  get_field_len_generator p e = do
    let field_len_dist = text p "field_len_dist" "constant"
    field_len ← int p "fieldlength" "100"
    if equal field_len_dist (codes "constant")
        then ok (const (Counter.new_const field_len), e)
        else if equal field_len_dist (codes "uniform")
        then Uniform.new 𝒫 1 (to_u64 field_len) >>= (λ g. ok (uniform g, e))
        else if equal field_len_dist (codes "zipfian")
        then Zipfian.new 𝒫 1 (to_u64 field_len) (Zipfian.zipfian_const 𝒫) e
          >>= (λ r. ok (zipfian r.0, r.1))
        else unknown "Unknown field length distribution: " field_len_dist

  abbrev pub no_operations : DiscreteGenerator 𝒫 Operation
  no_operations = record { values = []; sum = 𝒫.literal 0 1; last = none }

  -- `if (proportion > 0) op_chooser_.AddValue(op, proportion);`
  unfoldable pub add_if_positive :
      Operation → Double → DiscreteGenerator 𝒫 Operation → DiscreteGenerator 𝒫 Operation
  add_if_positive op proportion g =
      if 𝒫.less (𝒫.literal 0 1) proportion then Discrete.add_value 𝒫 g op proportion else g

  -- The five tests, in the order of the code.
  unfoldable pub choose_operations :
      Double → Double → Double → Double → Double → DiscreteGenerator 𝒫 Operation
  unfolding add_if_positive
  choose_operations reads updates inserts scans rmws = add_if_positive read_modify_write rmws (
      add_if_positive scan scans (
        add_if_positive insert inserts
          (add_if_positive update updates (add_if_positive read reads no_operations))))

  -- The branches on the request distribution.
  unfoldable pub get_key_chooser :
      Properties → Bytes → ℕ → Double → Engine → Run (Generator 𝒫 × Engine)
  get_key_chooser p request_dist record_count insert_proportion e =
      if equal request_dist (codes "uniform")
      then Uniform.new 𝒫 0 (less_one record_count) >>= (λ g. ok (uniform g, e))
      else if equal request_dist (codes "zipfian")
      then int p "operationcount" "" >>= (λ op_count.
        let new_keys =
          𝒫.to_int (𝒫.mul (𝒫.mul (𝒫.of_int op_count) insert_proportion) (𝒫.literal 2 1)) in
        Scrambled.new_scrambled_of_count 𝒫 ((record_count + to_u64 new_keys) % 2 ^ 64) e
        >>= (λ r. ok (scrambled r.0, r.1)))
      else if equal request_dist (codes "latest")
      then Scrambled.new_skewed 𝒫 (Counter.new record_count) e >>= (λ r. ok (skewed r.0, r.1))
      else unknown "Unknown request distribution: " request_dist

  -- The branches on the distribution of scan lengths.
  unfoldable pub get_scan_len_chooser : Bytes → ℤ → Engine → Run (Generator 𝒫 × Engine)
  get_scan_len_chooser scan_len_dist max_scan_len e =
      if equal scan_len_dist (codes "uniform")
      then Uniform.new 𝒫 1 (to_u64 max_scan_len) >>= (λ g. ok (uniform g, e))
      else if equal scan_len_dist (codes "zipfian")
      then Zipfian.new 𝒫 1 (to_u64 max_scan_len) (Zipfian.zipfian_const 𝒫) e
        >>= (λ r. ok (zipfian r.0, r.1))
      else unknown "Distribution not allowed for scan length: " scan_len_dist

  unfoldable pub init : Properties → Engine → Run (CoreWorkload 𝒫 × Engine)
  init p e = do
    let table_name = text p "table" "usertable"
    field_count ← int p "fieldcount" "10"
    (field_len_generator, e₁) ← get_field_len_generator p e
    reads ← double p "readproportion" "0.95"
    updates ← double p "updateproportion" "0.05"
    inserts ← double p "insertproportion" "0.0"
    scans ← double p "scanproportion" "0.0"
    rmws ← double p "readmodifywriteproportion" "0.0"
    record_count ← int p "recordcount" ""
    let request_dist = text p "requestdistribution" "uniform"
    zero_padding ← int p "zeropadding" "1"
    max_scan_len ← int p "maxscanlength" "1000"
    let scan_len_dist = text p "scanlengthdistribution" "uniform"
    insert_start ← int p "insertstart" "0"
    read_all ← str_to_bool (text p "readallfields" "true")
    write_all ← str_to_bool (text p "writeallfields" "false")
    let hashed = equal (text p "insertorder" "hashed") (codes "hashed")
    let count = to_u64 record_count
    (key_chooser, e₂) ← get_key_chooser p request_dist count inserts e₁
    field_chooser ← Uniform.new 𝒫 0 (less_one (to_u64 field_count))
    (scan_len_chooser, e₃) ← get_scan_len_chooser scan_len_dist max_scan_len e₂
    ok (
      record {
        table_name = table_name;
        field_count = field_count;
        read_all_fields = read_all;
        write_all_fields = write_all;
        field_len_generator = field_len_generator;
        key_generator = Counter.new (to_u64 insert_start);
        op_chooser = choose_operations reads updates inserts scans rmws;
        key_chooser = key_chooser;
        field_chooser = uniform field_chooser;
        scan_len_chooser = scan_len_chooser;
        insert_key_sequence = Counter.new count;
        ordered_inserts = not hashed;
        record_count = count;
        zero_padding = zero_padding;
      },
      e₃,
    )
