-- ===== src/Generator/Scrambled/Range.antt =====
-- The keys that a scrambled generator gives.
use ycsb_c_copy.Generator.Scrambled.{
  ScrambledZipfianGenerator, scramble, next_scrambled, last_scrambled,
}
use ycsb_c_copy.Generator.Zipfian
use ycsb_c_copy.Generator.Zipfian.Zeta
use ycsb_c_copy.Generator.Zipfian.{zipfian_const, count_is_valid}
use ycsb_c_copy.Platform.{Platform}
use ycsb_c_copy.Prelude.{ℕ, zero, suc, ◌+◌, ◌%◌, ◌^◌, ◌≤◌, ◌<◌, ◌≡◌, refl, ◌∙◌, arith}
use ycsb_c_copy.Run.{ok}
use ycsb_c_copy.Utils.{fnv_hash64}

scramble-within :
    (base n value : ℕ)
    → 0 < n
    → base + n ≤ 2 ^ 64
    → (v : ℕ) × (scramble base n value ≡ ok v) × (base ≤ v) × (v < base + n)
unfolding scramble
scramble-within base zero value h k = absurd (omega arith)
scramble-within base (suc n) value h k =
    ((base + fnv_hash64 value % suc n) % 2 ^ 64, refl, omega arith, omega arith)

module _ (𝒫 : Platform) where
  -- The inner generator is valid and counts the same items, which do not run past 2 ^ 64.
  pub record IsValid (g : ScrambledZipfianGenerator 𝒫) : Type 0 where
    pub inner : Zeta.IsValid 𝒫 g.generator
    pub same_items : g.generator.num_items ≡ g.num_items
    pub fits : g.base + g.num_items ≤ 2 ^ 64

  -- `Next` on a valid generator ends normally, in one of its items; `Last` then returns the same item,
  -- and the generator stays valid, over the same items.
  pub next_scrambled-within :
      (g : ScrambledZipfianGenerator 𝒫) (e : 𝒫.Engine)
      → IsValid g
      → (v : ℕ) × (g' : ScrambledZipfianGenerator 𝒫) × (e' : 𝒫.Engine) × (next_scrambled 𝒫 g e
          ≡ ok (v, g', e'))
        × (g.base ≤ v)
        × (v < g.base + g.num_items)
        × (last_scrambled 𝒫 g' ≡ ok v)
        × IsValid g'
        × (g'.base ≡ g.base)
        × (g'.num_items ≡ g.num_items)
  unfolding next_scrambled last_scrambled Zipfian.next
  next_scrambled-within g e valid =
      let (z, inner, e', run, steps) =
        Zeta.next_of-Steps 𝒫 g.generator g.generator.num_items e valid.inner valid.inner.counted in
      let (v, ran, lo, hi) =
        scramble-within g.base g.num_items z (ground (arith, valid.inner.counted)) valid.fits in
      (
        v,
        record g { generator = inner },
        e',
        rw (run, ran),
        lo,
        hi,
        rw (steps.last_is, ran),
        record {
          inner = steps.valid;
          same_items = steps.same_items ∙ valid.same_items;
          fits = valid.fits;
        },
        refl,
        refl,
      )
