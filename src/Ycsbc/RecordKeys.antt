-- ===== src/Ycsbc/RecordKeys.antt =====
-- The texts under which the hash table database keeps the records of the workload.
use ycsb_c_copy.HashtableDb.Refinement.{key_of}
use ycsb_c_copy.Number.RoundTrip.{NoNul, to_string-NoNul, to_string-injective}
use ycsb_c_copy.Number.{to_string}
use ycsb_c_copy.Prelude.{
  ℕ, ◌^◌, ◌<◌, ◌≡◌, ◌≢◌, refl, sym, ◌∙◌, false, [], ◌∷◌, ◌++◌, Bytes, codes, equal, equal_iff,
  arith,
}
use ycsb_c_copy.Workload.Names.{c_str-NoNul}

-- The text under which the database keeps the record of key number `n`.
abbrev pub record_key : Bytes → ℕ → Bytes
record_key table n = key_of table (codes "user" ++ to_string n)

NoNul-append : (a b : Bytes) → NoNul a → NoNul b → NoNul (a ++ b)
NoNul-append [] b h k = k
NoNul-append (c ∷ a) b h k = (h.0, NoNul-append a b h.1 k)

append_cancel : (t a b : Bytes) → t ++ a ≡ t ++ b → a ≡ b
append_cancel [] a b e = e
append_cancel (c ∷ t) a b e = append_cancel t a b (cc)

drop4 : (a b : Bytes) → codes "user" ++ a ≡ codes "user" ++ b → a ≡ b
drop4 a b e = cc

c_str-record_key :
    (table : Bytes) (n : ℕ)
    → NoNul table
    → record_key table n ≡ table ++ (codes "user" ++ to_string n)
c_str-record_key table n h = c_str-NoNul (table ++ (codes "user" ++ to_string n)) (
    NoNul-append table (codes "user" ++ to_string n) h
      (refl, (refl, (refl, (refl, to_string-NoNul n)))))

record_key-injective :
    (table : Bytes) (m n : ℕ)
    → NoNul table
    → m < 2 ^ 64
    → n < 2 ^ 64
    → record_key table m ≡ record_key table n
    → m ≡ n
record_key-injective table m n h hm hn e =
    let same = sym (c_str-record_key table m h) ∙ e ∙ c_str-record_key table n h in
    to_string-injective m n hm hn (drop4 _ _ (append_cancel table _ _ same))

pub equal-record_key :
    (table : Bytes) (m n : ℕ)
    → NoNul table
    → m < 2 ^ 64
    → n < 2 ^ 64
    → m ≢ n
    → equal (record_key table m) (record_key table n) ≡ false
equal-record_key table m n h hm hn ne = ground (
  arith,
  equal_iff (record_key table m) (record_key table n),
  record_key-injective table m n h hm hn,
)
