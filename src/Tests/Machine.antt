-- ===== src/Tests/Machine.antt =====
-- A machine whose numbers and random engines are plain: `double` counts millionths and rounds down.
use ycsb_c_copy.Client.{Client}
use ycsb_c_copy.Generator.Uniform
use ycsb_c_copy.Generator.Uniform.{UniformGenerator}
use ycsb_c_copy.HashtableDb.Interface.{lock_stl_db}
use ycsb_c_copy.Platform.{Platform}
use ycsb_c_copy.Prelude.Int.{pos, negsuc}
use ycsb_c_copy.Prelude.{ℕ, ◌+◌, ◌-◌, ◌*◌, ◌/◌, ◌%◌, ◌^◌, Bool, true, false, [], ltb, arith, codes}
use ycsb_c_copy.Run.{ok}
use ycsb_c_copy.Workload.Init.{choose_operations}
use ycsb_c_copy.Workload.{const, uniform, CoreWorkload, World}

abbrev pub machine : Platform
machine = record {
  Double = ℕ;
  literal = λ n d. n * 10 ^ 6 / d;
  of_u64 = λ n. n * 10 ^ 6;
  of_int = λ z. elim z [ pos n ↦ n * 10 ^ 6 | negsuc n ↦ 0 ];
  trunc = λ a. a / 10 ^ 6;
  to_int = λ a. pos (a / 10 ^ 6);
  add = λ a b. a + b;
  sub = λ a b. a - b;
  mul = λ a b. a * b / 10 ^ 6;
  div = λ a b. a * 10 ^ 6 / b;
  power = λ a b. a;
  less = λ a b. ltb a b;
  stod = λ s. ok (10 ^ 5);
  Engine = ℕ;
  draw_double = λ e. (e * 7919 % 10 ^ 6, e + 1);
  Twister = ℕ;
  twister = 5489;
  draw_int = λ lo hi t. (lo + t % (hi - lo + 1), t + 1);
  Crand = ℕ;
  rand = λ c. (c * 31 % 2 ^ 31, c + 1);
  Clock = ℕ;
  measure = λ c. (250, c + 250);
}

pub machine_draws : Uniform.DrawsWithin machine
machine_draws lo hi t h = (omega arith, omega arith)

-- A choice of 0 to 2.
abbrev pub three : UniformGenerator machine
three = record { generator = 5; dist_min = 0; dist_max = 2; last_int = 1 }

-- Three records of two fields, of five bytes each, with ordered inserts from key number `s` on.
abbrev pub small_workload : Bool → ℕ → CoreWorkload machine
small_workload read_all s = record {
  table_name = codes "t";
  field_count = pos 2;
  read_all_fields = read_all;
  write_all_fields = false;
  field_len_generator = const (record { constant = 5 });
  key_generator = record { counter = s };
  op_chooser = choose_operations machine 500000 300000 200000 0 0;
  key_chooser = uniform three;
  field_chooser = uniform (record { generator = 5; dist_min = 0; dist_max = 1; last_int = 1 });
  scan_len_chooser = const (record { constant = 2 });
  insert_key_sequence = record { counter = 3 };
  ordered_inserts = true;
  record_count = 3;
  zero_padding = pos 1;
}

abbrev pub small_world : Bool → ℕ → World machine
small_world read_all s = record { workload = small_workload read_all s; engine = 11; crand = 7 }

abbrev pub small_client : Bool → ℕ → Client machine lock_stl_db
small_client read_all s = record { world = small_world read_all s; db = [] }
