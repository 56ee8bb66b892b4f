-- ===== src/Properties.antt =====
-- core/properties.h: the class `Properties` and its `Load`. The `std::map` is an association list.
pub mod Lookup
pub mod Loading
use ycsb_c_copy.Prelude.{
  ℕ, Bool, true, false, List, [], ◌∷◌, ◌++◌, Option, none, some, ◌==◌, if◌then◌else◌, Bytes, codes,
  equal,
}
use ycsb_c_copy.Run.{Run, ok, fault, exception, out_of_range}
use ycsb_c_copy.Utils.{trim}

abbrev pub Properties : Type 0
Properties = List (Bytes × Bytes)

-- `properties_.find(key)`, with the value that the iterator names.
unfoldable pub find : Bytes → Properties → Option Bytes
find key [] = none
find key ((k, v) ∷ p) = if equal k key then some v else find key p

-- `GetProperty`; a caller that gives no default gets the empty string.
unfoldable pub get_property : Properties → Bytes → Bytes → Bytes
unfolding find
get_property p key default_value = elim (find key p) [ none ↦ default_value | some v ↦ v ]

-- `operator[]`: `std::map::at` throws `std::out_of_range`.
unfoldable pub at : Properties → Bytes → Run Bytes
unfolding find
at p key = elim (find key p) [ none ↦ fault out_of_range | some v ↦ ok v ]

-- `SetProperty`.
unfoldable pub set_property : Properties → Bytes → Bytes → Properties
set_property [] key value = (key, value) ∷ []
set_property ((k, v) ∷ p) key value =
    if equal k key then (k, value) ∷ p else (k, v) ∷ set_property p key value

-- `line.find_first_of('=')` with the two substrings that it gives; `none` is `npos`.
unfoldable pub cut : Bytes → Option (Bytes × Bytes)
cut [] = none
cut (c ∷ cs) =
    if c == b'='
    then some ([], cs)
    else elim (cut cs) [ none ↦ none | some (k, v) ↦ some (c ∷ k, v) ]

-- `line[0] == '#'`; the empty string has '\0' there.
unfoldable pub is_comment : Bytes → Bool
is_comment [] = false
is_comment (c ∷ cs) = c == b'#'

-- The body of the loop of `Load` on one line.
unfoldable pub load_line : Properties → Bytes → Properties
unfolding cut is_comment
load_line p line =
    if is_comment line
    then p
    else elim (cut line) [ none ↦ p | some (k, v) ↦ set_property p (trim k) (trim v) ]

-- The loop: `std::getline` takes the bytes up to a newline or to the end, and `line` is what it
-- has taken. The end of the stream ends a last line, which may be empty.
unfoldable pub load_from : Properties → Bytes → Bytes → Properties
unfolding load_line
load_from p line [] = load_line p line
load_from p line (c ∷ cs) =
    let newline = c == b'\n' in
    load_from (if newline then load_line p line else p) (if newline then [] else line ++ c ∷ []) cs

-- `Load` on the content of the file, or on a stream that is not open.
unfoldable pub load : Properties → Option Bytes → Run Properties
unfolding load_from
load p none = fault (exception (codes "File not open!"))
load p (some content) = ok (load_from p [] content)
