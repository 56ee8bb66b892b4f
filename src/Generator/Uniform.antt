-- ===== src/Generator/Uniform.antt =====
-- core/uniform_generator.h. A call holds the lock throughout, so it is one step.
use ycsb_c_copy.Prelude.{ℕ, ltb, if◌then◌else◌, ◌≤◌, ◌≡◌, arith}
use ycsb_c_copy.Platform.{Platform}
use ycsb_c_copy.Run.{Run, ok, fault, undefined}

pub record UniformGenerator (𝒫 : Platform) : Type 0 where
  pub generator : 𝒫.Twister
  pub dist_min : ℕ
  pub dist_max : ℕ
  pub last_int : ℕ

module _ (𝒫 : Platform) where
  unfoldable pub next : UniformGenerator 𝒫 → ℕ × UniformGenerator 𝒫
  next g =
      let (v, t) = 𝒫.draw_int g.dist_min g.dist_max g.generator in
      (v, record g { generator = t; last_int = v })

  unfoldable pub last : UniformGenerator 𝒫 → ℕ
  last g = g.last_int

  -- The constructor makes one draw. A distribution whose bounds are out of order is undefined.
  unfoldable pub new : ℕ → ℕ → Run (UniformGenerator 𝒫)
  unfolding next
  new lo hi =
      if ltb hi lo
      then fault undefined
      else ok
          (next (record { generator = 𝒫.twister; dist_min = lo; dist_max = hi; last_int = 0 })).1

  -- What `std::uniform_int_distribution` documents: a draw lies within the bounds.
  abbrev pub DrawsWithin : Type 0
  DrawsWithin =
      (lo hi : ℕ) (t : 𝒫.Twister)
      → lo ≤ hi
      → (lo ≤ (𝒫.draw_int lo hi t).0) × ((𝒫.draw_int lo hi t).0 ≤ hi)

  -- The bounds are in order and the last value lies within them.
  pub record IsValid (g : UniformGenerator 𝒫) : Type 0 where
    pub ordered : g.dist_min ≤ g.dist_max
    pub low : g.dist_min ≤ g.last_int
    pub high : g.last_int ≤ g.dist_max

  pub next-IsValid :
      (draws : DrawsWithin) (g : UniformGenerator 𝒫)
      → IsValid g
      → IsValid (next g).1
        × ((next g).1.dist_min ≡ g.dist_min)
        × ((next g).1.dist_max ≡ g.dist_max)
        × ((next g).1.last_int ≡ (next g).0)
  unfolding next
  next-IsValid draws g v = ground (arith, draws g.dist_min g.dist_max g.generator)
