-- ===== src/Workload/Choosers.antt =====
-- The generators that a workload holds, when each can be drawn from.
use ycsb_c_copy.Generator.Counter
use ycsb_c_copy.Generator.Counter.{CounterGenerator}
use ycsb_c_copy.Generator.Scrambled
use ycsb_c_copy.Generator.Scrambled.Range
use ycsb_c_copy.Generator.Uniform
use ycsb_c_copy.Generator.Zipfian
use ycsb_c_copy.Generator.Zipfian.Zeta
use ycsb_c_copy.Generator.Zipfian.{count_is_valid}
use ycsb_c_copy.Platform.{Platform}
use ycsb_c_copy.Prelude.{ℕ, ◌+◌, ◌-◌, ◌%◌, ◌^◌, ◌≡◌, refl, true}
use ycsb_c_copy.Run.{ok}
use ycsb_c_copy.Workload.{Generator, const, uniform, zipfian, scrambled, skewed, next_value}

module _ (𝒫 : Platform) (draws : Uniform.DrawsWithin 𝒫) (basis : CounterGenerator) where
  -- A uniform generator has its bounds in order, the zipfian ones have valid sums, and the counter
  -- behind a skewed one counts a valid number of items.
  abbrev pub CanDraw : Generator 𝒫 → Type 0
  CanDraw (const g) = Unit
  CanDraw (uniform g) = Uniform.IsValid 𝒫 g
  CanDraw (zipfian g) = Zeta.IsValid 𝒫 g
  CanDraw (scrambled g) = Range.IsValid 𝒫 g
  CanDraw (skewed g) = Zeta.IsValid 𝒫 g.zipfian × (count_is_valid (Counter.last basis) ≡ true)

  -- Such a generator gives a value, and can be drawn from again.
  pub next_value-CanDraw :
      (g : Generator 𝒫) (e : 𝒫.Engine)
      → CanDraw g
      → (v : ℕ) × (g' : Generator 𝒫) × (e' : 𝒫.Engine) × (next_value 𝒫 basis g e ≡ ok (v, g', e'))
        × CanDraw g'
  unfolding next_value Zipfian.next Scrambled.next_skewed
  next_value-CanDraw (const g) e h = (Counter.next_const g, const g, e, refl, tt)
  next_value-CanDraw (uniform g) e h = (
    (Uniform.next 𝒫 g).0,
    uniform (Uniform.next 𝒫 g).1,
    e,
    refl,
    (Uniform.next-IsValid 𝒫 draws g h).0,
  )
  next_value-CanDraw (zipfian g) e h =
      let (v, g', e', run, steps) = Zeta.next_of-Steps 𝒫 g g.num_items e h h.counted in
      (v, zipfian g', e', rw run, steps.valid)
  next_value-CanDraw (scrambled g) e h =
      let (v, g', e', run, lo, hi, l, valid, b, n) = Range.next_scrambled-within 𝒫 g e h in
      (v, scrambled g', e', rw run, valid)
  next_value-CanDraw (skewed g) e (h, c) =
      let (v, g', e', run, steps) = Zeta.next_of-Steps 𝒫 g.zipfian (Counter.last basis) e h c in
      let last = (Counter.last basis + 2 ^ 64 - v % 2 ^ 64) % 2 ^ 64 in
      (last, skewed (record { zipfian = g'; last = last }), e', rw run, (steps.valid, c))
