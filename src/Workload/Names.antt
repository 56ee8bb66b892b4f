-- ===== src/Workload/Names.antt =====
-- The names that the workload gives to keys and fields.
use ycsb_c_copy.BlockDb.{real_key}
use ycsb_c_copy.HashString.{c_str}
use ycsb_c_copy.Number.RoundTrip.{
  stoi-to_string, to_string-injective, to_string-StartsWithDigit, to_string-NoNul, NoNul,
}
use ycsb_c_copy.Number.{to_string, substr}
use ycsb_c_copy.Platform.{Platform}
use ycsb_c_copy.Prelude.Int.{pos}
use ycsb_c_copy.Prelude.{
  ℕ, zero, suc, ◌%◌, ◌^◌, ◌<◌, ◌≤◌, ◌≡◌, ◌≢◌, refl, ◌∙◌, Bool, [], ◌∷◌, ◌++◌, arith, if◌then◌else◌,
  Bytes, codes,
}
use ycsb_c_copy.Run.{ok}
use ycsb_c_copy.Utils.{hash}
use ycsb_c_copy.Workload.{CoreWorkload, reduce_key, build_key_name, field_name}

-- The number in a key's name.
abbrev pub key_index : Bool → ℕ → ℕ → ℕ
key_index ordered record_count key_num = (if ordered then key_num else hash key_num) % record_count

pub real_key-user : (n : ℕ) → n < 2 ^ 31 → real_key (codes "user" ++ to_string n) ≡ ok (pos n)
unfolding real_key substr
real_key-user n h = ground (arith, stoi-to_string n h)

reduce_key-key_index :
    (ordered : Bool) (record_count key_num : ℕ)
    → 0 < record_count
    → reduce_key ordered record_count key_num ≡ ok (key_index ordered record_count key_num)
unfolding reduce_key
reduce_key-key_index ordered zero key_num h = absurd (omega arith)
reduce_key-key_index ordered (suc n) key_num h = refl

pub build_key_name-ok :
    (𝒫 : Platform) (wl : CoreWorkload 𝒫) (key_num : ℕ)
    → 0 < wl.record_count
    → build_key_name 𝒫 wl key_num
      ≡ ok (codes "user" ++ to_string (key_index wl.ordered_inserts wl.record_count key_num))
unfolding build_key_name
build_key_name-ok 𝒫 wl key_num h =
    rw (reduce_key-key_index wl.ordered_inserts wl.record_count key_num h)

-- With a positive record count that an `int` can hold, `BuildKeyName` gives every key number a name
-- from which the block databases read back the number, or its hash if inserts are hashed, modulo the
-- record count: an index below the record count.
pub build_key_name-real_key :
    (𝒫 : Platform) (wl : CoreWorkload 𝒫) (key_num : ℕ)
    → 0 < wl.record_count
    → wl.record_count ≤ 2 ^ 31
    → (key : Bytes) × (build_key_name 𝒫 wl key_num ≡ ok key)
      × (real_key key ≡ ok (pos (key_index wl.ordered_inserts wl.record_count key_num)))
      × (key_index wl.ordered_inserts wl.record_count key_num < wl.record_count)
build_key_name-real_key 𝒫 wl key_num h small =
    let i = key_index wl.ordered_inserts wl.record_count key_num in
    let lt : i < wl.record_count = omega arith in
    (
      codes "user" ++ to_string i,
      build_key_name-ok 𝒫 wl key_num h,
      real_key-user i (omega arith),
      lt,
    )

drop5 : (a b : Bytes) → codes "field" ++ a ≡ codes "field" ++ b → a ≡ b
drop5 a b e = cc

-- Different field numbers have different names.
pub field_name-injective : (m n : ℕ) → m < 2 ^ 64 → n < 2 ^ 64 → field_name m ≡ field_name n → m ≡ n
field_name-injective m n hm hn e = to_string-injective m n hm hn (drop5 _ _ e)

pub c_str-NoNul : (s : Bytes) → NoNul s → c_str s ≡ s
unfolding c_str
c_str-NoNul [] h = refl
c_str-NoNul (c ∷ cs) h = rw h.0 (rw (c_str-NoNul cs h.1))

field-NoNul : (s : Bytes) → NoNul s → NoNul (codes "field" ++ s)
field-NoNul s h = (refl, (refl, (refl, (refl, (refl, h)))))

-- A field's name holds no byte 0.
pub c_str-field_name : (n : ℕ) → c_str (field_name n) ≡ field_name n
c_str-field_name n = c_str-NoNul (field_name n) (field-NoNul (to_string n) (to_string-NoNul n))

-- The name that a client asks for when it reads one field, as C code sees it.
pub c_str-field-field_name :
    (n : ℕ) → c_str (codes "field" ++ field_name n) ≡ codes "field" ++ field_name n
c_str-field-field_name n =
    c_str-NoNul (codes "field" ++ field_name n)
      (field-NoNul (field_name n) (field-NoNul (to_string n) (to_string-NoNul n)))

-- It is no field's name: a digit stands there where it has an `f`.
pub field-field_name-ne : (m n : ℕ) → codes "field" ++ field_name m ≢ field_name n
field-field_name-ne m n e =
    let (c, r, starts, digit) = to_string-StartsWithDigit n in
    let same : field_name m ≡ to_string n = drop5 (field_name m) (to_string n) e in
    let head : codes "field" ++ to_string m ≡ c ∷ r = same ∙ starts in ground arith
