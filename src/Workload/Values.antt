-- ===== src/Workload/Values.antt =====
-- The records that `BuildValues` makes.
use ycsb_c_copy.Db.{KvPair}
use ycsb_c_copy.Generator.Uniform
use ycsb_c_copy.Platform.{Platform}
use ycsb_c_copy.Prelude.Int.{rounds}
use ycsb_c_copy.Prelude.{ℕ, zero, suc, ◌+◌, ◌≤◌, ◌≡◌, refl, List, [], ◌∷◌, Bytes, replicate, arith}
use ycsb_c_copy.Run.{ok}
use ycsb_c_copy.Utils.{random_print_char}
use ycsb_c_copy.Workload.Choosers.{CanDraw, next_value-CanDraw}
use ycsb_c_copy.Workload.{
  Generator, World, field_name, next_field_value, build_values_from, build_values,
}

-- Printable ASCII, and no space.
abbrev pub Printable : Bytes → Type 0
Printable [] = Unit
Printable (c ∷ cs) = ((33 ≤ c) × (c ≤ 126)) × Printable cs

replicate-Printable : (n r : ℕ) → Printable (replicate n (random_print_char r))
unfolding random_print_char
replicate-Printable zero r = tt
replicate-Printable (suc n) r = ((omega arith, omega arith), replicate-Printable n r)

-- Fields number `i` to `i + n - 1`, in this order, with printable values.
abbrev pub AreFields : ℕ → ℕ → List KvPair → Type 0
AreFields zero i es = es ≡ []
AreFields (suc n) i [] = ⊥
AreFields (suc n) i (e ∷ es) = (e.0 ≡ field_name i) × Printable e.1 × AreFields n (i + 1) es

module _ (𝒫 : Platform) (draws : Uniform.DrawsWithin 𝒫) where
  -- `w` with another generator of field lengths and other states of chance.
  abbrev pub moved : World 𝒫 → Generator 𝒫 → 𝒫.Engine → 𝒫.Crand → World 𝒫
  moved w g e c = record {
    workload = record w.workload { field_len_generator = g };
    engine = e;
    crand = c;
  }

  abbrev pub CanFill : World 𝒫 → Type 0
  CanFill w = CanDraw 𝒫 draws w.workload.insert_key_sequence w.workload.field_len_generator

  pub next_field_value-Printable :
      (w : World 𝒫)
      → CanFill w
      → (s : Bytes) × (g : Generator 𝒫) × (e : 𝒫.Engine) × (c : 𝒫.Crand) × (next_field_value 𝒫 w
          ≡ ok (s, moved w g e c))
        × CanFill (moved w g e c)
        × Printable s
  unfolding next_field_value
  next_field_value-Printable w h =
      let (v, g, e, run, h') =
        next_value-CanDraw 𝒫 draws w.workload.insert_key_sequence w.workload.field_len_generator
          w.engine h in
      (
        replicate v (random_print_char (𝒫.rand w.crand).0),
        g,
        e,
        (𝒫.rand w.crand).1,
        rw run,
        h',
        replicate-Printable v (𝒫.rand w.crand).0,
      )

  build_values_from-AreFields :
      (n i : ℕ) (w : World 𝒫)
      → CanFill w
      → (es : List KvPair) × (g : Generator 𝒫) × (e : 𝒫.Engine) × (c : 𝒫.Crand) × (build_values_from
            𝒫 n i w
          ≡ ok (es, moved w g e c))
        × CanFill (moved w g e c)
        × AreFields n i es
  unfolding build_values_from
  build_values_from-AreFields zero i w h =
      ([], w.workload.field_len_generator, w.engine, w.crand, refl, h, refl)
  build_values_from-AreFields (suc n) i w h =
      let (s, g, e, c, run, h', printable) = next_field_value-Printable w h in
      let (es, g', e', c', run', h'', fields) =
        build_values_from-AreFields n (i + 1) (moved w g e c) h' in
      ((field_name i, s) ∷ es, g', e', c', rw (run, run'), h'', (refl, printable, fields))

  -- If the generator of field lengths can be drawn from, `BuildValues` ends normally with the fields
  -- `field0` up to the field count, each with a printable value, and changes nothing of the workload
  -- but that generator, which can still be drawn from.
  pub build_values-AreFields :
      (w : World 𝒫)
      → CanFill w
      → (es : List KvPair) × (g : Generator 𝒫) × (e : 𝒫.Engine) × (c : 𝒫.Crand) × (build_values 𝒫 w
          ≡ ok (es, moved w g e c))
        × CanFill (moved w g e c)
        × AreFields (rounds w.workload.field_count) 0 es
  unfolding build_values
  build_values-AreFields w h = build_values_from-AreFields (rounds w.workload.field_count) 0 w h
