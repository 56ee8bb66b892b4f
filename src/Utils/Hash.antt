-- ===== src/Utils/Hash.antt =====
-- The two hash loops are FNV-1a of the value's bytes, the lowest byte first.
use Prim.Native.Nat.{bit_xor}
use ycsb_c_copy.Prelude.{
  ℕ, zero, suc, ◌+◌, ◌*◌, ◌/◌, ◌%◌, ◌^◌, ◌<◌, ◌≡◌, refl, ◌∙◌, ap, [], ◌∷◌, arith, Bytes,
}
use ycsb_c_copy.Utils.{
  fnv_offset_basis64, fnv_prime64, fnv_offset_basis32, fnv_prime32, fnv_rounds64, fnv_hash64,
  fnv_rounds32, fnv_hash32, hash,
}

-- The `n` lowest bytes of a number, and the number that such bytes write.
abbrev pub octets : ℕ → ℕ → Bytes
octets zero val = []
octets (suc n) val = (val % 256) ∷ octets n (val / 256)

abbrev pub from_octets : Bytes → ℕ
from_octets [] = 0
from_octets (b ∷ bs) = b + 256 * from_octets bs

-- FNV-1a over bytes: exclusive or first, then the product modulo `m`.
abbrev pub fnv1a : ℕ → ℕ → ℕ → Bytes → ℕ
fnv1a prime m h [] = h
fnv1a prime m h (b ∷ bs) = fnv1a prime m (bit_xor h b * prime % m) bs

rounds64-fnv1a : (n val h : ℕ) → fnv_rounds64 n val h ≡ fnv1a fnv_prime64 (2 ^ 64) h (octets n val)
unfolding fnv_rounds64
rounds64-fnv1a zero val h = refl
rounds64-fnv1a (suc n) val h = rounds64-fnv1a n _ _

rounds32-fnv1a : (n val h : ℕ) → fnv_rounds32 n val h ≡ fnv1a fnv_prime32 (2 ^ 32) h (octets n val)
unfolding fnv_rounds32
rounds32-fnv1a zero val h = refl
rounds32-fnv1a (suc n) val h = rounds32-fnv1a n _ _

octets4-low : (val : ℕ) → octets 4 (val % 2 ^ 32) ≡ octets 4 val
octets4-low val = ground arith

-- `FNVHash64` is 64-bit FNV-1a of the eight bytes that write its argument, the lowest first, and `Hash`
-- of a 64-bit value is 32-bit FNV-1a of the four lowest of them, below 2 ^ 32.
pub hashes-fnv1a :
    (val : ℕ)
    → val < 2 ^ 64
    → (fnv_hash64 val ≡ fnv1a fnv_prime64 (2 ^ 64) fnv_offset_basis64 (octets 8 val))
      × (from_octets (octets 8 val) ≡ val)
      × (hash val ≡ fnv1a fnv_prime32 (2 ^ 32) fnv_offset_basis32 (octets 4 val))
      × (hash val < 2 ^ 32)
unfolding fnv_hash64 hash fnv_hash32
hashes-fnv1a val h = (
  rounds64-fnv1a 8 val fnv_offset_basis64,
  omega arith,
  rounds32-fnv1a 4 (val % 2 ^ 32) fnv_offset_basis32 ∙ ap (fnv1a _ _ _) (octets4-low val),
  unfold fnv_rounds32 in omega arith,
)
