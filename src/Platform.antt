-- ===== src/Platform.antt =====
-- What the program takes from the machine and the libraries: `double`, the random engines and the clock. They
-- are parameters of the model; what a theorem needs of them is a hypothesis there.
use ycsb_c_copy.Prelude.Int.{ℤ}
use ycsb_c_copy.Prelude.{ℕ, Bool, Bytes}
use ycsb_c_copy.Run.{Run}

pub record Platform : Type 1 where
  -- `double`, its literals n / d, its conversions and its operations.
  pub Double : Type 0
  pub literal : ℕ → ℕ → Double
  pub of_u64 : ℕ → Double
  pub of_int : ℤ → Double
  pub trunc : Double → ℕ
  pub to_int : Double → ℤ
  pub add : Double → Double → Double
  pub sub : Double → Double → Double
  pub mul : Double → Double → Double
  pub div : Double → Double → Double
  pub power : Double → Double → Double
  pub less : Double → Double → Bool
  pub stod : Bytes → Run Double
  -- The static engine of `RandomDouble`, and a draw from its distribution.
  pub Engine : Type 0
  pub draw_double : Engine → Double × Engine
  -- An `std::mt19937_64` as it is built, and a draw of `uniform_int_distribution(lo, hi)` from it.
  pub Twister : Type 0
  pub twister : Twister
  pub draw_int : ℕ → ℕ → Twister → ℕ × Twister
  -- The state of `rand()`, and a call of it.
  pub Crand : Type 0
  pub rand : Crand → ℕ × Crand
  -- The state of the clock, and what a `Timer` gives between its `Start` and its `End`.
  pub Clock : Type 0
  pub measure : Clock → Double × Clock
