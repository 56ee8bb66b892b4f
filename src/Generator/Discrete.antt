-- ===== src/Generator/Discrete.antt =====
-- core/discrete_generator.h. Only the draw is under the lock; the rest of `Next` reads the values,
-- which no thread changes after `Init`, and writes `last_`.
use ycsb_c_copy.Platform.{Platform}
use ycsb_c_copy.Prelude.{
  ◌≡◌, refl, ap, ◌∙◌, ◌⊎◌, inl, inr, Bool, true, false, List, [], ◌∷◌, ◌++◌, Option, some,
  if◌then◌else◌, Bool-cases,
}
use ycsb_c_copy.Run.{Run, ok, fault, failed_assert, ◌>>=◌, bind-eq-ok}

pub record DiscreteGenerator (𝒫 : Platform) (V : Type 0) : Type 0 where
  pub values : List (V × 𝒫.Double)
  pub sum : 𝒫.Double
  -- `none` while `last_` has not been written.
  pub last : Option V

module _ (𝒫 : Platform) {V : Type 0} where
  -- `values_.empty()`
  abbrev pub is_empty : List (V × 𝒫.Double) → Bool
  is_empty [] = true
  is_empty (e ∷ es) = false

  unfoldable pub add_value : DiscreteGenerator 𝒫 V → V → 𝒫.Double → DiscreteGenerator 𝒫 V
  add_value g value weight = record {
    values = g.values ++ (value, weight) ∷ [];
    sum = 𝒫.add g.sum weight;
    last = if is_empty g.values then some value else g.last;
  }

  -- The loop over the values; after the last one `assert(false)` fails.
  unfoldable pub choose : List (V × 𝒫.Double) → 𝒫.Double → 𝒫.Double → Run V
  choose [] sum chooser = fault failed_assert
  choose ((v, w) ∷ es) sum chooser =
      let rest = choose es sum (𝒫.sub chooser (𝒫.div w sum)) in
      if 𝒫.less chooser (𝒫.div w sum) then ok v else rest

  unfoldable pub next :
      DiscreteGenerator 𝒫 V → 𝒫.Engine → Run (V × DiscreteGenerator 𝒫 V × 𝒫.Engine)
  unfolding choose
  next g e =
      let (chooser, e') = 𝒫.draw_double e in
      do v ← choose g.values g.sum chooser; ok (v, record g { last = some v }, e')

  -- `v` was added with the weight `w`.
  abbrev pub Weighs : V → 𝒫.Double → List (V × 𝒫.Double) → Type 0
  Weighs v w [] = ⊥
  Weighs v w (e ∷ es) = ((e.0 ≡ v) × (e.1 ≡ w)) ⊎ Weighs v w es

  choose-Weighs :
      (es : List (V × 𝒫.Double)) (sum chooser : 𝒫.Double) (v : V)
      → choose es sum chooser ≡ ok v
      → (w : 𝒫.Double) × Weighs v w es
  unfolding choose
  choose-Weighs [] sum chooser v h = cc
  choose-Weighs ((u, w) ∷ es) sum chooser v h = elim (Bool-cases (𝒫.less chooser (𝒫.div w sum))) [
    | inl e ↦ (w, inl (cc (rw e at h), refl))
    | inr e ↦
        let (x, m) = choose-Weighs es sum (𝒫.sub chooser (𝒫.div w sum)) v (rw e at h) in (x, inr m)
  ]

  -- A value that `Next` returns is one that was added, and `Last` then returns it; the values and
  -- their sum stay.
  pub next-Weighs :
      (g g' : DiscreteGenerator 𝒫 V) (e e' : 𝒫.Engine) (v : V)
      → next g e ≡ ok (v, g', e')
      → ((w : 𝒫.Double) × Weighs v w g.values)
        × (g'.last ≡ some v)
        × (g'.values ≡ g.values)
        × (g'.sum ≡ g.sum)
  unfolding next
  next-Weighs g g' e e' v h =
      let (u, picked, done) = bind-eq-ok (choose g.values g.sum (𝒫.draw_double e).0) _ h in
      let same : u ≡ v = cc in
      (choose-Weighs g.values g.sum (𝒫.draw_double e).0 v (picked ∙ ap ok same), cc, cc, cc)
