-- ===== src/Generator/Counter/Threads.antt =====
-- Threads that share one counter: each call of `Next` is one atomic step, in any order.
use ycsb_c_copy.Prelude.{
  ℕ, suc, ◌+◌, ◌%◌, ◌^◌, ◌<◌, ◌≤◌, ◌≡◌, ◌⊎◌, inl, inr, List, [], ◌∷◌, arith, length,
}
use ycsb_c_copy.Generator.Counter.{CounterGenerator, next}

-- The calls in the order in which they take effect, by the number of the calling thread, and what
-- each one returns.
abbrev pub Trace : Type 0
Trace = List (ℕ × ℕ)

-- A run of the threads `ids` from the counter `g` to `h`.
pub data Runs : CounterGenerator → List ℕ → Trace → CounterGenerator → Type 0 where
  idle : {g : CounterGenerator} → Runs g [] [] g
  call :
      {g h : CounterGenerator} {t : ℕ} {ids : List ℕ} {out : Trace}
      → Runs (next g).1 ids out h
      → Runs g (t ∷ ids) ((t, (next g).0) ∷ out) h

abbrev pub Returned : ℕ → Trace → Type 0
Returned v [] = ⊥
Returned v ((t, w) ∷ out) = (v ≡ w) ⊎ Returned v out

-- Nothing is returned twice.
abbrev pub Distinct : Trace → Type 0
Distinct [] = Unit
Distinct ((t, v) ∷ out) = ¬ (Returned v out) × Distinct out

Runs-Returned :
    {g h : CounterGenerator} {ids : List ℕ} {out : Trace} (v : ℕ)
    → Runs g ids out h
    → g.counter < 2 ^ 64
    → Returned v out
    → (i : ℕ) × (i < length ids) × (v ≡ (g.counter + i) % 2 ^ 64)
unfolding next
Runs-Returned v idle small r = absurd r
Runs-Returned v (call r) small (inl e) = (0, omega arith, omega arith)
Runs-Returned v (call r) small (inr m) =
    let (i, lt, e) = Runs-Returned v r (omega arith) m in (suc i, omega arith, omega arith)

Runs-Distinct :
    {g h : CounterGenerator} {ids : List ℕ} {out : Trace}
    → Runs g ids out h
    → g.counter < 2 ^ 64
    → length ids ≤ 2 ^ 64
    → Distinct out
unfolding next
Runs-Distinct idle small few = tt
Runs-Distinct (call r) small few = (
  λ m. let (i, lt, e) = Runs-Returned _ r (omega arith) m in omega arith,
  Runs-Distinct r (omega arith) (omega arith),
)

Runs-counter :
    {g h : CounterGenerator} {ids : List ℕ} {out : Trace}
    → Runs g ids out h
    → g.counter < 2 ^ 64
    → h.counter ≡ (g.counter + length ids) % 2 ^ 64
unfolding next
Runs-counter idle small = omega arith
Runs-counter (call r) small = omega (arith, Runs-counter r (omega arith))

-- However the calls of the threads are ordered, no value is returned twice within 2 ^ 64 calls, and
-- the counter has then moved by the number of calls.
pub Runs-unique :
    {g h : CounterGenerator} {ids : List ℕ} {out : Trace}
    → Runs g ids out h
    → g.counter < 2 ^ 64
    → length ids ≤ 2 ^ 64
    → Distinct out × (h.counter ≡ (g.counter + length ids) % 2 ^ 64)
Runs-unique r small few = (Runs-Distinct r small few, Runs-counter r small)
