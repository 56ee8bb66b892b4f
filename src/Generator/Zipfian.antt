-- ===== src/Generator/Zipfian.antt =====
-- core/zipfian_generator.h. `Next` holds the lock, so it is one step.
pub mod Zeta
use ycsb_c_copy.Platform.{Platform}
use ycsb_c_copy.Prelude.{
  ℕ, zero, suc, ◌+◌, ◌-◌, ◌/◌, ◌%◌, ◌^◌, Bool, true, false, ◌&&◌, ltb, leb, if◌then◌else◌,
}
use ycsb_c_copy.Run.{Run, ok, fault, failed_assert, require, ◌>>=◌, ◌>>◌}

-- `UINT64_MAX >> 24`
abbrev pub max_num_items : ℕ
max_num_items = (2 ^ 64 - 1) / 2 ^ 24

-- What the two assertions on a number of items test.
abbrev pub count_is_valid : ℕ → Bool
count_is_valid num = leb 2 num && ltb num max_num_items

pub record ZipfianGenerator (𝒫 : Platform) : Type 0 where
  pub num_items : ℕ
  pub base : ℕ
  pub theta : 𝒫.Double
  pub zeta_n : 𝒫.Double
  pub eta : 𝒫.Double
  pub alpha : 𝒫.Double
  pub zeta_2 : 𝒫.Double
  pub n_for_zeta : ℕ
  pub last_value : ℕ

module _ (𝒫 : Platform) where
  open 𝒫 use {Double, literal, of_u64, trunc, add, sub, mul, div, power, less, Engine, draw_double}

  abbrev pub zipfian_const : Double
  zipfian_const = literal 99 100

  -- The loop of `Zeta`, by the rounds left; `i` is the loop's variable.
  unfoldable pub zeta_rounds : ℕ → ℕ → Double → Double → Double
  zeta_rounds zero i theta zeta = zeta
  zeta_rounds (suc n) i theta zeta =
      zeta_rounds n (i + 1) theta (add zeta (div (literal 1 1) (power (of_u64 i) theta)))

  -- `Zeta(last_num, cur_num, theta, last_zeta)`
  unfoldable pub zeta : ℕ → ℕ → Double → Double → Double
  unfolding zeta_rounds
  zeta last_num cur_num theta last_zeta =
      zeta_rounds (cur_num - last_num) (last_num + 1) theta last_zeta

  -- `Zeta(num, theta)`
  unfoldable pub zeta_from_zero : ℕ → Double → Double
  unfolding zeta
  zeta_from_zero num theta = zeta 0 num theta (literal 0 1)

  unfoldable pub raise_zeta : ZipfianGenerator 𝒫 → ℕ → Run (ZipfianGenerator 𝒫)
  unfolding zeta
  raise_zeta g num = do
    require (leb g.n_for_zeta num) failed_assert
    ok (record g { zeta_n = zeta g.n_for_zeta num g.theta g.zeta_n; n_for_zeta = num })

  unfoldable pub eta_of : ZipfianGenerator 𝒫 → Double
  eta_of g =
      div
        (sub (literal 1 1)
          (power (div (literal 2 1) (of_u64 g.num_items)) (sub (literal 1 1) g.theta)))
        (sub (literal 1 1) (div g.zeta_2 g.zeta_n))

  -- The value that `Next(num)` returns for the draw `u`.
  unfoldable pub pick : ZipfianGenerator 𝒫 → ℕ → Double → ℕ
  pick g num u =
      let uz = mul u g.zeta_n in
      if less uz (literal 1 1)
      then 0
      else if less uz (add (literal 1 1) (power (literal 1 2) g.theta))
      then 1
      else trunc (
          add (of_u64 g.base)
            (mul (of_u64 num) (power (add (sub (mul g.eta u) g.eta) (literal 1 1)) g.alpha)))

  -- `Next(num)`
  unfoldable pub next_of : ZipfianGenerator 𝒫 → ℕ → Engine → Run (ℕ × ZipfianGenerator 𝒫 × Engine)
  unfolding raise_zeta eta_of pick
  next_of g num e = do
    require (count_is_valid num) failed_assert
    raised ←
        if ltb g.n_for_zeta num
        then raise_zeta g num >>= (λ r. ok (record r { eta = eta_of r }))
        else ok g
    let (u, e') = draw_double e
    let v = pick raised num u
    ok (v, record raised { last_value = v }, e')

  -- `Next()`
  unfoldable pub next : ZipfianGenerator 𝒫 → Engine → Run (ℕ × ZipfianGenerator 𝒫 × Engine)
  unfolding next_of
  next g = next_of g g.num_items

  -- The members as the constructor's initialisers and its first statements leave them; `eta_` and
  -- `last_value_` are written before anything reads them.
  abbrev pub initial : ℕ → ℕ → Double → ZipfianGenerator 𝒫
  initial lo num_items theta = record {
    num_items = num_items;
    base = lo;
    theta = theta;
    zeta_n = literal 0 1;
    eta = literal 0 1;
    alpha = div (literal 1 1) (sub (literal 1 1) theta);
    zeta_2 = zeta_from_zero 2 theta;
    n_for_zeta = 0;
    last_value = 0;
  }

  -- The constructor; it makes one draw.
  unfoldable pub new : ℕ → ℕ → Double → Engine → Run (ZipfianGenerator 𝒫 × Engine)
  new lo hi theta e = do
    let num_items = (hi + 2 ^ 64 - lo + 1) % 2 ^ 64
    require (count_is_valid num_items) failed_assert
    raised ← raise_zeta (initial lo num_items theta) num_items
    (v, g, e') ← next (record raised { eta = eta_of raised }) e
    ok (g, e')

  -- `ZipfianGenerator(num_items)`
  unfoldable pub new_of_count : ℕ → Engine → Run (ZipfianGenerator 𝒫 × Engine)
  unfolding new
  new_of_count num_items = new 0 ((num_items + 2 ^ 64 - 1) % 2 ^ 64) zipfian_const
