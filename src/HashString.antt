-- ===== src/HashString.antt =====
-- lib/string.h: `vmp::String`, a C string with its hash. A C string is the list of its bytes without
-- the terminator; `none` is a null pointer.
pub mod Sdbm
use ycsb_c_copy.Prelude.{
  ℕ, ◌+◌, ◌-◌, ◌*◌, ◌%◌, ◌^◌, ◌≡◌, ◌↔◌, refl, Bool, true, false, not, ◌&&◌, List, [], ◌∷◌, Option,
  none, some, ltb, ◌==◌, if◌then◌else◌, Bytes, equal, equal_iff, length, arith,
}
use ycsb_c_copy.Run.{Run, ok, fault, failed_assert}

-- `s.c_str()` as C code reads it: up to the first byte 0.
unfoldable pub c_str : Bytes → Bytes
c_str [] = []
c_str (c ∷ cs) = if c == 0 then [] else c ∷ c_str cs

pub record HashString : Type 0 where
  pub hash : ℕ
  pub value : Bytes
  pub len : ℕ

-- A `char` is signed: converted to `uint64_t` a byte from 128 on is extended with ones.
abbrev pub char_to_u64 : ℕ → ℕ
char_to_u64 c = if ltb c 128 then c else c + (2 ^ 64 - 256)

-- The body of the loop of `SDBMHash`.
unfoldable pub sdbm_step : ℕ → ℕ → ℕ
sdbm_step hash c =
    (char_to_u64 c + hash * 2 ^ 6 % 2 ^ 64 + hash * 2 ^ 16 % 2 ^ 64 + 2 ^ 64 - hash) % 2 ^ 64

-- The loop; the end of the list is the terminator.
unfoldable pub sdbm_from : ℕ → Bytes → ℕ
unfolding sdbm_step
sdbm_from hash [] = hash
sdbm_from hash (c ∷ cs) = sdbm_from (sdbm_step hash c) cs

unfoldable pub sdbm_hash : Bytes → ℕ
unfolding sdbm_from
sdbm_hash = sdbm_from 0

-- `set_value`
unfoldable pub set_value : Bytes → HashString
unfolding sdbm_hash
set_value v = record { hash = sdbm_hash v; value = v; len = length v }

-- `Wrap`, and `Copy`, which wraps a copy of the text.
unfoldable pub wrap : Option Bytes → Run HashString
unfolding set_value
wrap none = fault failed_assert
wrap (some v) = ok (set_value v)

-- `operator==`; `strcmp` tells whether two texts are the same.
infix 50 ◌=s=◌
unfoldable pub ◌=s=◌ : HashString → HashString → Bool
a =s= b = if not (a.hash == b.hash) then false else equal a.value b.value

pub =s=_iff : (a b : HashString) → ((a =s= b) ≡ true) ↔ ((a.hash ≡ b.hash) × (a.value ≡ b.value))
unfolding ◌=s=◌
=s=_iff a b = ground (arith, equal_iff a.value b.value)
