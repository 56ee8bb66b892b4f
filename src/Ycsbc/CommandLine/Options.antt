-- ===== src/Ycsbc/CommandLine/Options.antt =====
-- What the command line does to the properties.
use ycsb_c_copy.Prelude.{
  ◌≡◌, refl, ◌∙◌, true, List, [], ◌∷◌, ◌++◌, Option, none, some, if◌then◌else◌, Bytes, codes, equal,
  equal_iff, arith, append-nil,
}
use ycsb_c_copy.Properties.Lookup.{find-set_property}
use ycsb_c_copy.Properties.{Properties, find, set_property, load}
use ycsb_c_copy.Run.{ok, fault, exception}
use ycsb_c_copy.Ycsbc.CommandLine.{
  Files, is_option, str_start_with, option_property, take_option, parse_from, parse_command_line,
}

-- Options with their values, as they stand in the command line.
abbrev pub arguments : List (Bytes × Bytes) → List Bytes
arguments [] = []
arguments ((o, v) ∷ os) = o ∷ v ∷ arguments os

-- The options and their properties.
abbrev options : List (Bytes × Bytes)
options =
    (codes "-threads", codes "threadcount")
    ∷ (codes "-db", codes "dbname")
    ∷ (codes "-host", codes "host")
    ∷ (codes "-port", codes "port")
    ∷ (codes "-slaves", codes "slaves")
    ∷ []

abbrev among : List (Bytes × Bytes) → Bytes → Option Bytes
among [] o = none
among ((a, name) ∷ rest) o = if equal o a then some name else among rest o

-- The property that an option sets.
abbrev pub property_of : Bytes → Option Bytes
property_of o = among options o

option_property-property_of : (o : Bytes) → option_property o ≡ property_of o
unfolding option_property
option_property-property_of o = refl

-- Every option is one that sets a property.
abbrev pub AreSettings : List (Bytes × Bytes) → Type 0
AreSettings [] = Unit
AreSettings ((o, v) ∷ os) = ((name : Bytes) × (property_of o ≡ some name)) × AreSettings os

-- The value that an option gives to the property `name`.
abbrev pub setting : Bytes → Bytes → Bytes → Option Bytes
setting o v name = elim (property_of o) [
  | some n ↦ if equal n name then some v else none
  | none ↦ none
]

-- The value that the last option for the property `name` gives.
abbrev pub last_setting : List (Bytes × Bytes) → Bytes → Option Bytes
last_setting [] name = none
last_setting ((o, v) ∷ os) name = elim (last_setting os name) [
  | some w ↦ some w
  | none ↦ setting o v name
]

abbrev pub or_else : Option Bytes → Option Bytes → Option Bytes
or_else (some v) o = some v
or_else none o = o

dashed : (o name : Bytes) → option_property o ≡ some name → str_start_with o (codes "-") ≡ true
unfolding option_property str_start_with
dashed o name h = ground (
  arith,
  equal_iff o (codes "-threads"),
  equal_iff o (codes "-db"),
  equal_iff o (codes "-host"),
  equal_iff o (codes "-port"),
  equal_iff o (codes "-slaves"),
)

-- One option.
parse_setting :
    (files : Files) (o v name filename : Bytes) (rest : List Bytes) (props : Properties)
    → option_property o ≡ some name
    → parse_from files (o ∷ v ∷ rest) filename props
      ≡ parse_from files rest filename (set_property props name v)
unfolding parse_from take_option
parse_setting files o v name filename rest props h =
    let known : is_option o ≡ true = rw (is_option, h) in
    rw (dashed o name h, known, take_option, h)

parse_settings :
    (files : Files) (os : List (Bytes × Bytes)) (rest : List Bytes) (filename : Bytes)
    (props : Properties)
    → AreSettings os
    → (p : Properties) × (parse_from files (arguments os ++ rest) filename props
        ≡ parse_from files rest filename p)
      × ((name : Bytes) → find name p ≡ or_else (last_setting os name) (find name props))
parse_settings files [] rest filename props h = (props, refl, λ name. refl)
parse_settings files ((o, v) ∷ os) rest filename props ((name, sets), h) =
    let (p, run, reads) = parse_settings files os rest filename (set_property props name v) h in
    (
      p,
      parse_setting files o v name filename (arguments os ++ rest) props
            (option_property-property_of o ∙ sets)
          ∙ run,
      λ j. reads j ∙ ground (arith, sets, find-set_property props name v j),
    )

-- A command line of at least one option, each of them with a value and for a property, is taken: then
-- every property reads as the value of its last option, or as before where it has none.
pub parse_command_line-settings :
    (files : Files) (o v : Bytes) (os : List (Bytes × Bytes)) (props : Properties)
    → AreSettings ((o, v) ∷ os)
    → (p : Properties) × (parse_command_line files (arguments ((o, v) ∷ os)) props ≡ ok ([], p))
      × ((name : Bytes) → find name p ≡ or_else (last_setting ((o, v) ∷ os) name) (find name props))
unfolding parse_command_line parse_from
parse_command_line-settings files o v os props h =
    let (p, run, reads) = parse_settings files ((o, v) ∷ os) [] [] props h in
    (p, rw (append-nil (arguments os)) at run, reads)

-- A file behind `-P` that does not open ends the parse in the exception of `Load`, whatever options
-- stand before it and behind it. `ParseCommandLine` has a handler that prints a message and exits,
-- but for a `const string &`, which `utils::Exception` is not.
pub parse_command_line-not_open :
    (files : Files) (os : List (Bytes × Bytes)) (file : Bytes) (rest : List Bytes)
    (props : Properties)
    → AreSettings os
    → files file ≡ none
    → parse_command_line files (arguments os ++ (codes "-P" ∷ file ∷ rest)) props
      ≡ fault (exception (codes "File not open!"))
unfolding parse_command_line parse_from option_property equal load
parse_command_line-not_open files [] file rest props h closed = rw closed
parse_command_line-not_open files ((o, v) ∷ os) file rest props h closed =
    let (p, run, reads) =
      parse_settings files ((o, v) ∷ os) (codes "-P" ∷ file ∷ rest) [] props h in
    run ∙ rw closed
