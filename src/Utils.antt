-- ===== src/Utils.antt =====
-- core/utils.h: the hashes, `StrToBool`, `Trim` and `RandomPrintChar`.
pub mod Hash
pub mod Trimming
use Prim.Native.Nat.{bit_xor}
use mathlib.Core.List.{reverse}
use ycsb_c_copy.Prelude.{
  ℕ, zero, suc, ◌+◌, ◌*◌, ◌/◌, ◌%◌, ◌^◌, Bool, true, false, ◌&&◌, ◌||◌, List, [], ◌∷◌, ◌++◌, map,
  leb, if◌then◌else◌, Bytes, codes, equal,
}
use ycsb_c_copy.Number.{drop_space}
use ycsb_c_copy.Run.{Run, ok, fault, exception}

abbrev pub fnv_offset_basis64 : ℕ
fnv_offset_basis64 = 0xCBF29CE484222325

abbrev pub fnv_prime64 : ℕ
fnv_prime64 = 1099511628211

abbrev pub fnv_offset_basis32 : ℕ
fnv_offset_basis32 = 2166136261

abbrev pub fnv_prime32 : ℕ
fnv_prime32 = 16777619

-- The loop of `FNVHash64`, by the rounds left.
unfoldable pub fnv_rounds64 : ℕ → ℕ → ℕ → ℕ
fnv_rounds64 zero val hash = hash
fnv_rounds64 (suc i) val hash =
    fnv_rounds64 i (val / 2 ^ 8) (bit_xor hash (val % 2 ^ 8) * fnv_prime64 % 2 ^ 64)

unfoldable pub fnv_hash64 : ℕ → ℕ
unfolding fnv_rounds64
fnv_hash64 val = fnv_rounds64 8 val fnv_offset_basis64

-- The loop of `FNVHash32`, by the rounds left.
unfoldable pub fnv_rounds32 : ℕ → ℕ → ℕ → ℕ
fnv_rounds32 zero val hash = hash
fnv_rounds32 (suc i) val hash =
    fnv_rounds32 i (val / 2 ^ 8) (bit_xor hash (val % 2 ^ 8) * fnv_prime32 % 2 ^ 32)

unfoldable pub fnv_hash32 : ℕ → ℕ
unfolding fnv_rounds32
fnv_hash32 val = fnv_rounds32 4 val fnv_offset_basis32

-- `Hash`: the argument is cut to the `uint32_t` that `FNVHash32` takes.
unfoldable pub hash : ℕ → ℕ
unfolding fnv_hash32
hash val = fnv_hash32 (val % 2 ^ 32)

-- `RandomPrintChar` on the value of `rand()`.
unfoldable pub random_print_char : ℕ → ℕ
random_print_char r = r % 94 + 33

-- `::tolower` in the "C" locale.
unfoldable pub to_lower : ℕ → ℕ
to_lower c = if leb b'A' c && leb c b'Z' then c + 32 else c

unfoldable pub str_to_bool : Bytes → Run Bool
unfolding to_lower
str_to_bool str =
    let low = map to_lower str in
    if equal low (codes "true") || equal low (codes "1")
    then ok true
    else if equal low (codes "false") || equal low (codes "0")
    then ok false
    else fault (exception (codes "Invalid bool string: " ++ low))

-- The spaces at the end are skipped from the back, no further than the first that is no space.
unfoldable pub trim : Bytes → Bytes
unfolding drop_space
trim str = reverse (drop_space (reverse (drop_space str)))
