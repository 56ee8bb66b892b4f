-- ===== src/Db.antt =====
-- core/db.h: the interface that the databases implement and the client calls.
pub mod History
use ycsb_c_copy.Prelude.Int.{ℤ}
use ycsb_c_copy.Prelude.{ℕ, Bool, List, Option, Bytes}
use ycsb_c_copy.Run.{Run}

-- A field or key with its value.
abbrev pub KvPair : Type 0
KvPair = Bytes × Bytes

abbrev pub k_ok : ℕ
k_ok = 0

abbrev pub k_error_no_data : ℕ
k_error_no_data = 1

abbrev pub k_error_conflict : ℕ
k_error_conflict = 2

-- The virtual functions, each on the table's name, the key and the state. `fields` is `none` for a
-- null pointer; the vectors that `Read` and `Scan` fill are passed in and out.
pub record Db : Type 1 where
  pub State : Type 0
  pub init : Bool → State → Run State
  pub read :
      Bytes → Bytes → Option (List Bytes) → List KvPair → State → Run (ℕ × List KvPair × State)
  pub scan :
      Bytes
      → Bytes
      → ℤ
      → Option (List Bytes)
      → List (List KvPair)
      → State
      → Run (ℕ × List (List KvPair) × State)
  pub update : Bytes → Bytes → List KvPair → State → Run (ℕ × State)
  pub insert : Bytes → Bytes → List KvPair → State → Run (ℕ × State)
  pub delete : Bytes → Bytes → State → Run (ℕ × State)
  pub close : State → Run State
  pub handle_all_data : State → Run State
  pub final_flush_disk : State → Run State
