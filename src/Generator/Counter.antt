-- ===== src/Generator/Counter.antt =====
-- core/counter_generator.h and core/const_generator.h. The state of a `CounterGenerator` is the
-- value of its atomic `counter_`; `fetch_add` on it is one step.
pub mod Threads
use ycsb_c_copy.Prelude.{ℕ, ◌+◌, ◌-◌, ◌%◌, ◌^◌}
use ycsb_c_copy.Prelude.Int.{ℤ, to_u64}

pub record CounterGenerator : Type 0 where
  pub counter : ℕ

unfoldable pub new : ℕ → CounterGenerator
new start = record { counter = start }

unfoldable pub next : CounterGenerator → ℕ × CounterGenerator
next g = (g.counter, record g { counter = (g.counter + 1) % 2 ^ 64 })

unfoldable pub last : CounterGenerator → ℕ
last g = (g.counter + 2 ^ 64 - 1) % 2 ^ 64

unfoldable pub set : CounterGenerator → ℕ → CounterGenerator
set g start = record g { counter = start }

-- A `ConstGenerator` holds the `int` that it is built from, converted to `uint64_t`.
pub record ConstGenerator : Type 0 where
  pub constant : ℕ

unfoldable pub new_const : ℤ → ConstGenerator
new_const c = record { constant = to_u64 c }

unfoldable pub next_const : ConstGenerator → ℕ
next_const g = g.constant
