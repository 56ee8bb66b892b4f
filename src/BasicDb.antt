-- ===== src/BasicDb.antt =====
-- db/basic_db.h: `BasicDB`, which prints its calls and keeps no data. Its state is what has been printed;
-- each operation holds the lock to its end, so that what it prints stands together.
pub mod Printed
use ycsb_c_copy.Db.{Db, KvPair, k_ok}
use ycsb_c_copy.Number.{to_string}
use ycsb_c_copy.Prelude.Int.{ℤ, pos, negsuc}
use ycsb_c_copy.Prelude.{ℕ, ◌+◌, Bool, List, [], ◌∷◌, ◌++◌, Option, none, some, Bytes, codes}
use ycsb_c_copy.Run.{Run, ok}

-- `endl`
abbrev pub newline : Bytes
newline = 10 ∷ []

-- `cout << n` for an `int`.
unfoldable pub int_text : ℤ → Bytes
int_text (pos n) = to_string n
int_text (negsuc n) = b'-' ∷ to_string (n + 1)

unfoldable pub print_fields : List Bytes → Bytes
print_fields [] = []
print_fields (f ∷ fields) = f ++ b' ' ∷ print_fields fields

unfoldable pub print_values : List KvPair → Bytes
print_values [] = []
print_values ((f, v) ∷ values) = f ++ b'=' ∷ (v ++ b' ' ∷ print_values values)

-- What `Read` and `Scan` print of the fields.
unfoldable pub fields_text : Option (List Bytes) → Bytes
unfolding print_fields
fields_text (some fields) = codes " [ " ++ (print_fields fields ++ (codes "]" ++ newline))
fields_text none = codes " < all fields >" ++ newline

unfoldable pub init : Bool → Bytes → Run Bytes
init flag out = ok (out ++ (codes "A new thread begins working." ++ newline))

unfoldable pub read :
    Bytes → Bytes → Option (List Bytes) → List KvPair → Bytes → Run (ℕ × List KvPair × Bytes)
unfolding fields_text
read table key fields result out =
    ok (k_ok, result, out ++ (codes "READ " ++ (table ++ b' ' ∷ (key ++ fields_text fields))))

unfoldable pub scan :
    Bytes
    → Bytes
    → ℤ
    → Option (List Bytes)
    → List (List KvPair)
    → Bytes
    → Run (ℕ × List (List KvPair) × Bytes)
unfolding fields_text int_text
scan table key len fields result out = ok (
  k_ok,
  result,
  out ++ (codes "SCAN " ++ (table ++ b' ' ∷ (key ++ b' ' ∷ (int_text len ++ fields_text fields)))),
)

unfoldable pub update : Bytes → Bytes → List KvPair → Bytes → Run (ℕ × Bytes)
unfolding print_values
update table key values out = ok (
  k_ok,
  out
      ++ (codes "UPDATE "
          ++ (table
              ++ b' ' ∷ (key ++ (codes " [ " ++ (print_values values ++ (codes "]" ++ newline)))))),
)

unfoldable pub insert : Bytes → Bytes → List KvPair → Bytes → Run (ℕ × Bytes)
unfolding print_values
insert table key values out = ok (
  k_ok,
  out
      ++ (codes "INSERT "
          ++ (table
              ++ b' ' ∷ (key ++ (codes " [ " ++ (print_values values ++ (codes "]" ++ newline)))))),
)

unfoldable pub delete : Bytes → Bytes → Bytes → Run (ℕ × Bytes)
delete table key out = ok (k_ok, out ++ (codes "DELETE " ++ (table ++ b' ' ∷ (key ++ newline))))

abbrev pub basic_db : Db
basic_db = record {
  State = Bytes;
  init = init;
  read = read;
  scan = scan;
  update = update;
  insert = insert;
  delete = delete;
  close = λ s. ok s;
  handle_all_data = λ s. ok s;
  final_flush_disk = λ s. ok s;
}
