-- ===== src/Generator/Scrambled.antt =====
-- core/scrambled_zipfian_generator.h and core/skewed_latest_generator.h.
pub mod Range
use ycsb_c_copy.Generator.Counter
use ycsb_c_copy.Generator.Counter.{CounterGenerator}
use ycsb_c_copy.Generator.Zipfian
use ycsb_c_copy.Generator.Zipfian.{ZipfianGenerator, zipfian_const}
use ycsb_c_copy.Platform.{Platform}
use ycsb_c_copy.Prelude.{ℕ, zero, suc, ◌+◌, ◌-◌, ◌%◌, ◌^◌}
use ycsb_c_copy.Run.{Run, ok, fault, undefined, ◌>>=◌}
use ycsb_c_copy.Utils.{fnv_hash64}

pub record ScrambledZipfianGenerator (𝒫 : Platform) : Type 0 where
  pub base : ℕ
  pub num_items : ℕ
  pub generator : ZipfianGenerator 𝒫

pub record SkewedLatestGenerator (𝒫 : Platform) : Type 0 where
  pub zipfian : ZipfianGenerator 𝒫
  pub last : ℕ

-- `Scramble`; a remainder by zero is undefined.
unfoldable pub scramble : ℕ → ℕ → ℕ → Run ℕ
scramble base zero value = fault undefined
scramble base num_items value = ok ((base + fnv_hash64 value % num_items) % 2 ^ 64)

module _ (𝒫 : Platform) where
  unfoldable pub new_scrambled : ℕ → ℕ → 𝒫.Engine → Run (ScrambledZipfianGenerator 𝒫 × 𝒫.Engine)
  new_scrambled lo hi e = do
    (z, e') ← Zipfian.new 𝒫 lo hi (zipfian_const 𝒫) e
    ok (record { base = lo; num_items = (hi + 2 ^ 64 - lo + 1) % 2 ^ 64; generator = z }, e')

  -- `ScrambledZipfianGenerator(num_items)`
  unfoldable pub new_scrambled_of_count :
      ℕ → 𝒫.Engine → Run (ScrambledZipfianGenerator 𝒫 × 𝒫.Engine)
  unfolding new_scrambled
  new_scrambled_of_count num_items = new_scrambled 0 ((num_items + 2 ^ 64 - 1) % 2 ^ 64)

  unfoldable pub next_scrambled :
      ScrambledZipfianGenerator 𝒫 → 𝒫.Engine → Run (ℕ × ScrambledZipfianGenerator 𝒫 × 𝒫.Engine)
  next_scrambled g e = do
    (z, inner, e') ← Zipfian.next 𝒫 g.generator e
    v ← scramble g.base g.num_items z
    ok (v, record g { generator = inner }, e')

  -- `Last` scrambles what the inner generator returned last.
  unfoldable pub last_scrambled : ScrambledZipfianGenerator 𝒫 → Run ℕ
  last_scrambled g = scramble g.base g.num_items g.generator.last_value

  -- `basis` is the counter that the generator holds by reference.
  unfoldable pub next_skewed :
      CounterGenerator
      → SkewedLatestGenerator 𝒫
      → 𝒫.Engine
      → Run (ℕ × SkewedLatestGenerator 𝒫 × 𝒫.Engine)
  next_skewed basis g e = do
    let max_key = Counter.last basis
    (z, inner, e') ← Zipfian.next_of 𝒫 g.zipfian max_key e
    let v = (max_key + 2 ^ 64 - z % 2 ^ 64) % 2 ^ 64
    ok (v, record { zipfian = inner; last = v }, e')

  unfoldable pub new_skewed : CounterGenerator → 𝒫.Engine → Run (SkewedLatestGenerator 𝒫 × 𝒫.Engine)
  unfolding next_skewed
  new_skewed basis e = do
    (z, e') ← Zipfian.new_of_count 𝒫 (Counter.last basis) e
    (v, g, e'') ← next_skewed basis (record { zipfian = z; last = 0 }) e'
    ok (g, e'')
