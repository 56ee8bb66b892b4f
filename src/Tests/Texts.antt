-- ===== src/Tests/Texts.antt =====
-- Texts, property files, command lines and hashes.
use ycsb_c_copy.HashString.Sdbm.{polynomial, wrapped_lem}
use ycsb_c_copy.HashString.{set_value, ◌=s=◌}
use ycsb_c_copy.Prelude.{
  ◌^◌, ◌<◌, ◌≡◌, refl, List, [], ◌∷◌, ◌++◌, none, some, Bytes, codes, equal, arith,
}
use ycsb_c_copy.Properties.Loading.{
  AreLines, Line, comment, junk, setting, file, meanings, load-meanings,
}
use ycsb_c_copy.Properties.{is_comment, cut, Properties, find, set_property, load}
use ycsb_c_copy.Run.{ok, fault, exception}
use ycsb_c_copy.Utils.Hash.{octets, from_octets, fnv1a, hashes-fnv1a}
use ycsb_c_copy.Number.{drop_space}
use ycsb_c_copy.Utils.{
  trim, fnv_offset_basis64, fnv_prime64, fnv_offset_basis32, fnv_prime32, fnv_hash64, hash,
}
use ycsb_c_copy.Ycsbc.CommandLine.Options.{
  property_of, arguments, last_setting, or_else, parse_command_line-settings,
  parse_command_line-not_open,
}
use ycsb_c_copy.Ycsbc.CommandLine.{Files, parse_command_line}
use ycsb_c_copy.BasicDb.{basic_db, newline}
use ycsb_c_copy.BasicDb.Printed.{perform_all-printed}
use ycsb_c_copy.Db.{k_ok}
use ycsb_c_copy.Db.History.{Call, insert_call, read_call, delete_call, perform_all}
use ycsb_c_copy.Prelude.{replicate, List, ◌++◌}

wrapped_lem_example :
    ((set_value (codes "user1")).hash ≡ polynomial 0 (codes "user1"))
    × ((set_value (codes "user1") =s= set_value (codes "user2"))
        ≡ equal (codes "user1") (codes "user2"))
wrapped_lem_example = wrapped_lem (codes "user1") (codes "user2")

hashes-fnv1a_example :
    (fnv_hash64 0x1_0000_0007
      ≡ fnv1a fnv_prime64 (2 ^ 64) fnv_offset_basis64 (octets 8 0x1_0000_0007))
    × (from_octets (octets 8 0x1_0000_0007) ≡ 0x1_0000_0007)
    × (hash 0x1_0000_0007 ≡ fnv1a fnv_prime32 (2 ^ 32) fnv_offset_basis32 (octets 4 0x1_0000_0007))
    × (hash 0x1_0000_0007 < 2 ^ 32)
hashes-fnv1a_example = hashes-fnv1a 0x1_0000_0007 (omega arith)

abbrev two_properties : Properties
two_properties = (codes "table", codes "t") ∷ (codes "recordcount", codes "3") ∷ []

-- A comment, a line without a value, and " ab = 3".
abbrev three_lines : List Line
three_lines =
    comment (codes "c")
    ∷ junk (codes "x")
    ∷ setting (codes " ") (codes "ab") (codes " ") (codes " ") (codes "3") []
    ∷ []

are_lines : AreLines three_lines
unfolding is_comment
are_lines = ground arith

load-meanings_example : load [] (some (file three_lines)) ≡ ok (meanings [] three_lines)
load-meanings_example = load-meanings [] three_lines are_lines

loads_one : load [] (some (file three_lines)) ≡ ok ((codes "ab", codes "3") ∷ [])
unfolding load is_comment cut trim drop_space set_property
loads_one = refl

abbrev no_files : Files
no_files file_name = none

threads_option : property_of (codes "-threads") ≡ some (codes "threadcount")
unfolding equal
threads_option = refl

db_option : property_of (codes "-db") ≡ some (codes "dbname")
unfolding equal
db_option = refl

parse_command_line-settings_example :
    (p : Properties) × (parse_command_line no_files
        (arguments ((codes "-threads", codes "4") ∷ (codes "-db", codes "lock_stl") ∷ []))
        two_properties
      ≡ ok ([], p))
    × ((name : Bytes)
        → find name p
          ≡ or_else
              (last_setting
                ((codes "-threads", codes "4") ∷ (codes "-db", codes "lock_stl") ∷ [])
                name)
              (find name two_properties))
parse_command_line-settings_example =
    parse_command_line-settings no_files (codes "-threads") (codes "4")
      ((codes "-db", codes "lock_stl") ∷ []) two_properties
      ((codes "threadcount", threads_option), ((codes "dbname", db_option), tt))

parse_command_line-not_open_example :
    parse_command_line no_files
      (arguments ((codes "-threads", codes "4") ∷ []) ++ (codes "-P" ∷ codes "missing.spec" ∷ []))
      []
    ≡ fault (exception (codes "File not open!"))
parse_command_line-not_open_example =
    parse_command_line-not_open no_files ((codes "-threads", codes "4") ∷ []) (codes "missing.spec")
      [] [] ((codes "threadcount", threads_option), tt) refl

abbrev basic_calls : List Call
basic_calls =
    insert_call (codes "usertable") (codes "user1") ((codes "field0", codes "x") ∷ [])
    ∷ read_call (codes "usertable") (codes "user1") (codes "field0" ∷ codes "field1" ∷ [])
    ∷ delete_call (codes "usertable") (codes "user1")
    ∷ []

perform_all-printed_example :
    perform_all basic_db basic_calls []
    ≡ ok (
      replicate 3 (k_ok, []),
      codes "INSERT usertable user1 [ field0=x ]"
          ++ (newline
              ++ (codes "READ usertable user1 [ field0 field1 ]"
                  ++ (newline ++ (codes "DELETE usertable user1" ++ newline)))),
    )
perform_all-printed_example = perform_all-printed basic_calls []
