-- ===== src/Ycsbc/CommandLine.antt =====
-- `ParseCommandLine`, `StrStartWith` and the choice of the database in db/db_factory.cc.
pub mod Options
use ycsb_c_copy.HashString.{c_str}
use ycsb_c_copy.Number.{stoi}
use ycsb_c_copy.Prelude.Int.{ℤ}
use ycsb_c_copy.Prelude.{
  ℕ, ◌+◌, Bool, true, false, ◌&&◌, List, [], ◌∷◌, Option, none, some, ◌==◌, if◌then◌else◌, Bytes,
  codes, equal,
}
use ycsb_c_copy.Properties.{Properties, at, set_property, load}
use ycsb_c_copy.Run.{Run, ok, fault, exited, ◌>>=◌}

-- `strncmp(str, pre, strlen(pre)) == 0`
unfoldable pub str_start_with : Bytes → Bytes → Bool
str_start_with s [] = true
str_start_with [] (c ∷ pre) = false
str_start_with (d ∷ s) (c ∷ pre) = d == c && str_start_with s pre

-- The property that an option sets from the argument behind it.
unfoldable pub option_property : Bytes → Option Bytes
option_property arg =
    if equal arg (codes "-threads")
    then some (codes "threadcount")
    else if equal arg (codes "-db")
    then some (codes "dbname")
    else if equal arg (codes "-host")
    then some (codes "host")
    else if equal arg (codes "-port")
    then some (codes "port")
    else if equal arg (codes "-slaves")
    then some (codes "slaves")
    else none

-- What a file holds; `none` is a file that does not open.
abbrev pub Files : Type 0
Files = Bytes → Option Bytes

-- What the body of the loop does with an option and the argument behind it.
unfoldable pub take_option : Files → Bytes → Bytes → Bytes → Properties → Run (Bytes × Properties)
take_option files arg value filename props = elim (option_property arg) [
  | some name ↦ ok (filename, set_property props name value)
  | none ↦ load props (files value) >>= (λ p. ok (value, p))
]

abbrev pub is_option : Bytes → Bool
is_option arg = elim (option_property arg) [ some name ↦ true | none ↦ equal arg (codes "-P") ]

-- The loop, on the arguments from `argindex` on. An unknown option, an option with nothing behind it
-- and an argument that is no option all end in `exit(0)`.
unfoldable pub parse_from : Files → List Bytes → Bytes → Properties → Run (Bytes × Properties)
unfolding str_start_with take_option
parse_from files [] filename props = ok (filename, props)
parse_from files (arg ∷ []) filename props = fault (exited 0)
parse_from files (arg ∷ value ∷ rest) filename props =
    if str_start_with arg (codes "-") && is_option arg
    then take_option files arg value filename props >>= (λ r. parse_from files rest r.0 r.1)
    else fault (exited 0)

-- `argindex == 1` at the end: no argument was given.
unfoldable pub parse_command_line : Files → List Bytes → Properties → Run (Bytes × Properties)
unfolding parse_from
parse_command_line files [] props = fault (exited 0)
parse_command_line files (arg ∷ rest) props = parse_from files (arg ∷ rest) [] props

pub data DbName : Type 0 where
  basic lock_stl tbb_rand tbb_scan ceph real_ceph xihu : DbName
  redis : (host : Bytes) (port slaves : ℤ) → DbName

-- `DBFactory::CreateDB`; `none` is a null pointer.
unfoldable pub create_db : Properties → Run (Option DbName)
create_db props = do
  name ← at props (codes "dbname")
  if equal name (codes "basic")
      then ok (some basic)
      else if equal name (codes "lock_stl")
      then ok (some lock_stl)
      else if equal name (codes "redis")
      then at props (codes "port") >>= (λ port. stoi port >>= (λ p.
        at props (codes "slaves") >>= (λ slaves.
          stoi slaves
          >>= (λ s. at props (codes "host") >>= (λ host. ok (some (redis (c_str host) p s)))))))
      else if equal name (codes "tbb_rand")
      then ok (some tbb_rand)
      else if equal name (codes "tbb_scan")
      then ok (some tbb_scan)
      else if equal name (codes "ceph")
      then ok (some ceph)
      else if equal name (codes "real_ceph")
      then ok (some real_ceph)
      else if equal name (codes "xihu")
      then ok (some xihu)
      else ok none
