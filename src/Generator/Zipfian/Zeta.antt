-- ===== src/Generator/Zipfian/Zeta.antt =====
-- `zeta_n` is kept incrementally, and is what a computation from the start would give.
use ycsb_c_copy.Platform.{Platform}
use ycsb_c_copy.Prelude.{
  ℕ, zero, suc, ◌+◌, ◌-◌, ◌<◌, ◌≤◌, ◌≡◌, refl, ◌∙◌, arith, ltb, Bool-cases, inl, inr, true, ge→ltb,
  ◌%◌, ◌^◌,
}
use ycsb_c_copy.Run.{ok}
use ycsb_c_copy.Generator.Zipfian.{
  ZipfianGenerator, zeta_rounds, zeta, zeta_from_zero, raise_zeta, eta_of, pick, next_of, next, new,
  count_is_valid, initial,
}

module _ (𝒫 : Platform) where
  zeta_rounds-add :
      (m n i : ℕ) (theta z : 𝒫.Double)
      → zeta_rounds 𝒫 n (i + m) theta (zeta_rounds 𝒫 m i theta z) ≡ zeta_rounds 𝒫 (m + n) i theta z
  unfolding zeta_rounds
  zeta_rounds-add zero n i theta z =
      let a : i + 0 ≡ i = omega arith in let b : 0 + n ≡ n = omega arith in rw (a, b)
  zeta_rounds-add (suc m) n i theta z =
      let a : i + suc m ≡ i + 1 + m = omega arith in
      let b : suc m + n ≡ suc (m + n) = omega arith in
      rw (a, b) (zeta_rounds-add m n (i + 1) theta _)

  -- Going on from `m` items to `n` gives the sum for `n` items that a start from nothing gives, in
  -- the same order of additions, so also with rounding.
  pub zeta_resume :
      (m n : ℕ) (theta : 𝒫.Double)
      → m ≤ n
      → zeta 𝒫 m n theta (zeta_from_zero 𝒫 m theta) ≡ zeta_from_zero 𝒫 n theta
  unfolding zeta zeta_from_zero
  zeta_resume m n theta h =
      let a : m + 1 ≡ 0 + 1 + (m - 0) = omega arith in
      let b : (m - 0) + (n - m) ≡ n - 0 = omega arith in
      rw a (zeta_rounds-add (m - 0) (n - m) (0 + 1) theta _ ∙ rw b)

  -- `zeta_n` is the sum for `n_for_zeta` items.
  abbrev pub IsExact : ZipfianGenerator 𝒫 → Type 0
  IsExact g = g.zeta_n ≡ zeta_from_zero 𝒫 g.n_for_zeta g.theta

  raise_zeta-IsExact :
      (g : ZipfianGenerator 𝒫) (num : ℕ)
      → IsExact g
      → g.n_for_zeta ≤ num
      → (r : ZipfianGenerator 𝒫) × (raise_zeta 𝒫 g num ≡ ok r)
        × IsExact r
        × (r.n_for_zeta ≡ num)
        × (r.num_items ≡ g.num_items)
        × (r.base ≡ g.base)
  unfolding raise_zeta
  raise_zeta-IsExact g num x h = (
    record g { zeta_n = zeta 𝒫 g.n_for_zeta num g.theta g.zeta_n; n_for_zeta = num },
    ground arith,
    rw x (zeta_resume g.n_for_zeta num g.theta h),
    refl,
    refl,
    refl,
  )

  -- The sums are exact, and they cover a valid number of items.
  pub record IsValid (g : ZipfianGenerator 𝒫) : Type 0 where
    pub exact : IsExact g
    pub counted : count_is_valid g.num_items ≡ true
    pub covered : g.num_items ≤ g.n_for_zeta

  -- What `Next(num)` leaves behind, after it has returned `v`.
  pub record Steps (g : ZipfianGenerator 𝒫) (num v : ℕ) (g' : ZipfianGenerator 𝒫) : Type 0 where
    pub valid : IsValid g'
    pub covers : num ≤ g'.n_for_zeta
    pub grows : g.n_for_zeta ≤ g'.n_for_zeta
    pub last_is : g'.last_value ≡ v
    pub same_items : g'.num_items ≡ g.num_items
    pub same_base : g'.base ≡ g.base

  -- `Next(num)` passes its assertions for every valid `num` and keeps a valid generator valid: `zeta_n`
  -- is exactly the sum for `n_for_zeta` items, which grows to `num` if it was less, and never falls.
  pub next_of-Steps :
      (g : ZipfianGenerator 𝒫) (num : ℕ) (e : 𝒫.Engine)
      → IsValid g
      → count_is_valid num ≡ true
      → (v : ℕ) × (g' : ZipfianGenerator 𝒫) × (e' : 𝒫.Engine) × (next_of 𝒫 g num e ≡ ok (v, g', e'))
        × Steps g num v g'
  unfolding next_of
  next_of-Steps g num e valid h = elim (Bool-cases (ltb g.n_for_zeta num)) [
    | inl more ↦
        let (r, run, x, n, i, b) = raise_zeta-IsExact g num valid.exact (ground arith) in
        (
          pick 𝒫 (record r { eta = eta_of 𝒫 r }) num (𝒫.draw_double e).0,
          record r {
            eta = eta_of 𝒫 r;
            last_value = pick 𝒫 (record r { eta = eta_of 𝒫 r }) num (𝒫.draw_double e).0;
          },
          (𝒫.draw_double e).1,
          rw (h, more, run),
          record {
            valid = record { exact = x; counted = rw i valid.counted; covered = ground arith };
            covers = omega arith;
            grows = ground arith;
            last_is = refl;
            same_items = i;
            same_base = b;
          },
        )
    | inr enough ↦ (
      pick 𝒫 g num (𝒫.draw_double e).0,
      record g { last_value = pick 𝒫 g num (𝒫.draw_double e).0 },
      (𝒫.draw_double e).1,
      rw (h, enough),
      record {
        valid = record { exact = valid.exact; counted = valid.counted; covered = valid.covered };
        covers = ground arith;
        grows = omega arith;
        last_is = refl;
        same_items = refl;
        same_base = refl;
      },
    )
  ]

  new_runs :
      (lo hi n : ℕ) (theta : 𝒫.Double) (e : 𝒫.Engine) (r : ZipfianGenerator 𝒫) {v : ℕ}
      {g : ZipfianGenerator 𝒫} {e' : 𝒫.Engine}
      → (hi + 2 ^ 64 - lo + 1) % 2 ^ 64 ≡ n
      → count_is_valid n ≡ true
      → raise_zeta 𝒫 (initial 𝒫 lo n theta) n ≡ ok r
      → next 𝒫 (record r { eta = eta_of 𝒫 r }) e ≡ ok (v, g, e')
      → new 𝒫 lo hi theta e ≡ ok (g, e')
  unfolding new
  new_runs lo hi n theta e r w c run ran = rw (w, c, run, ran)

  -- A generator for the items from `lo` to `hi` is built, valid, if they are at least 2 and fewer
  -- than `kMaxNumItems`.
  pub new-IsValid :
      (lo hi : ℕ) (theta : 𝒫.Double) (e : 𝒫.Engine)
      → lo ≤ hi
      → hi < 2 ^ 64
      → count_is_valid (hi - lo + 1) ≡ true
      → (g : ZipfianGenerator 𝒫) × (e' : 𝒫.Engine) × (new 𝒫 lo hi theta e ≡ ok (g, e'))
        × IsValid g
        × (g.num_items ≡ hi - lo + 1)
        × (g.base ≡ lo)
  unfolding next
  new-IsValid lo hi theta e h small c =
      let n = hi - lo + 1 in
      let wrap : (hi + 2 ^ 64 - lo + 1) % 2 ^ 64 ≡ n = ground arith in
      let (r, run, x, k, i, b) =
        raise_zeta-IsExact (initial 𝒫 lo n theta) n (unfold zeta_from_zero zeta zeta_rounds in refl)
          (omega arith) in
      let start : ZipfianGenerator 𝒫 = record r { eta = eta_of 𝒫 r } in
      let valid : IsValid start = record { exact = x; counted = rw i c; covered = omega arith } in
      let (v, g, e', ran, steps) = next_of-Steps start r.num_items e valid (rw i c) in
      (
        g,
        e',
        new_runs lo hi n theta e r wrap c run ran,
        steps.valid,
        steps.same_items ∙ i,
        steps.same_base ∙ b,
      )

  -- `Next` returns 0 whenever the draw, times `zeta_n`, is below 1: also where the least item `base_`
  -- is above 0, so below every item of the generator.
  pub next-below_base :
      (g : ZipfianGenerator 𝒫) (e : 𝒫.Engine)
      → IsValid g
      → 0 < g.base
      → 𝒫.less (𝒫.mul (𝒫.draw_double e).0 g.zeta_n) (𝒫.literal 1 1) ≡ true
      → (v : ℕ) × (g' : ZipfianGenerator 𝒫) × (e' : 𝒫.Engine) × (next 𝒫 g e ≡ ok (v, g', e'))
        × (v < g'.base)
  unfolding next next_of pick
  next-below_base g e valid above low = (
    0,
    record g { last_value = 0 },
    (𝒫.draw_double e).1,
    rw (valid.counted, ge→ltb _ _ valid.covered, low),
    above,
  )
