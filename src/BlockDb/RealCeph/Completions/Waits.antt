-- ===== src/BlockDb/RealCeph/Completions/Waits.antt =====
-- When the wait of `Close` in db/real_ceph_db.h returns, and when it does not.
use ycsb_c_copy.Prelude.Int.{ℤ, pos, negsuc, increment, decrement}
use ycsb_c_copy.Prelude.{ℕ, zero, suc, ◌+◌, ◌≡◌, refl, subst, arith}
use ycsb_c_copy.BlockDb.RealCeph.Completions.{
  Waiter, idle, testing, unsatisfied, asleep, done, Threads, woken, Step, issue, count, subtract,
  notify, close, pass, refuse, sleep, Steps, stop, step, start,
}

-- The count and the requests that are not yet counted make up the pending ones.
abbrev pub Balances : ℤ → ℕ → ℕ → Type 0
Balances (pos n) u p = n + u ≡ p
Balances (negsuc n) u p = u ≡ p + n + 1

abbrev pub NoneUncounted : Waiter → ℕ → Type 0
NoneUncounted idle u = Unit
NoneUncounted done u = u ≡ 0
NoneUncounted _ u = u ≡ 0

abbrev pub DoneIsClear : Waiter → ℕ → Type 0
DoneIsClear done p = p ≡ 0
DoneIsClear _ p = Unit

abbrev pub Balanced : Threads → Type 0
Balanced s =
    Balances s.async_op_count s.uncounted s.pending
    × NoneUncounted s.waiter s.uncounted
    × DoneIsClear s.waiter s.pending

Balances-issue : (n : ℤ) (u p : ℕ) → Balances n u p → Balances n (u + 1) (p + 1)
Balances-issue (pos n) u p h = omega arith
Balances-issue (negsuc n) u p h = omega arith

Balances-increment : (n : ℤ) (u p : ℕ) → Balances n (suc u) p → Balances (increment n) u p
Balances-increment (pos n) u p h = omega arith
Balances-increment (negsuc zero) u p h = omega arith
Balances-increment (negsuc (suc n)) u p h = omega arith

Balances-decrement : (n : ℤ) (u p : ℕ) → Balances n u (suc p) → Balances (decrement n) u p
Balances-decrement (pos zero) u p h = omega arith
Balances-decrement (pos (suc n)) u p h = omega arith
Balances-decrement (negsuc n) u p h = omega arith

NoneUncounted-less : (w : Waiter) (u : ℕ) → NoneUncounted w (suc u) → NoneUncounted w u
NoneUncounted-less idle u h = tt
NoneUncounted-less testing u h = absurd (omega arith)
NoneUncounted-less unsatisfied u h = absurd (omega arith)
NoneUncounted-less asleep u h = absurd (omega arith)
NoneUncounted-less done u h = absurd (omega arith)

DoneIsClear-less : (w : Waiter) (p : ℕ) → DoneIsClear w (suc p) → DoneIsClear w p
DoneIsClear-less idle p h = tt
DoneIsClear-less testing p h = tt
DoneIsClear-less unsatisfied p h = tt
DoneIsClear-less asleep p h = tt
DoneIsClear-less done p h = absurd (omega arith)

woken_lem :
    (w : Waiter) (u p : ℕ)
    → NoneUncounted w u
    → DoneIsClear w p
    → NoneUncounted (woken w) u × DoneIsClear (woken w) p
woken_lem idle u p h k = (tt, tt)
woken_lem testing u p h k = (h, k)
woken_lem unsatisfied u p h k = (h, k)
woken_lem asleep u p h k = (h, tt)
woken_lem done u p h k = (h, k)

Step-Balanced : {s t : Threads} → Step s t → Balanced s → Balanced t
Step-Balanced issue (b, h, k) = (Balances-issue _ _ _ b, tt, tt)
Step-Balanced count (b, h, k) = (Balances-increment _ _ _ b, NoneUncounted-less _ _ h, k)
Step-Balanced subtract (b, h, k) = (Balances-decrement _ _ _ b, h, DoneIsClear-less _ _ k)
Step-Balanced notify (b, h, k) = let (h', k') = woken_lem _ _ _ h k in (b, h', k')
Step-Balanced close (b, h, k) = (b, refl, tt)
Step-Balanced pass (b, h, k) = (b, h, omega arith)
Step-Balanced (refuse ne) (b, h, k) = (b, h, tt)
Step-Balanced sleep (b, h, k) = (b, h, tt)

Steps-Balanced : {s t : Threads} → Steps s t → Balanced s → Balanced t
Steps-Balanced stop h = h
Steps-Balanced (step one more) h = Steps-Balanced more (Step-Balanced one h)

-- In every order of the steps, the count and the requests that are not yet counted make up the
-- pending ones; and when `wait` returns, no request is pending or uncounted: `Close` closes the image
-- only after the last of them.
pub Steps-clear :
    {s : Threads}
    → Steps start s
    → Balances s.async_op_count s.uncounted s.pending
      × (s.waiter ≡ done → (s.pending ≡ 0) × (s.uncounted ≡ 0))
Steps-clear {s} run =
    let (b, h, k) = Steps-Balanced run (refl, tt, tt) in
    (
      b,
      λ e. (subst (λ w. DoneIsClear w s.pending) e k, subst (λ w. NoneUncounted w s.uncounted) e h),
    )

-- `n` requests are pending and counted, and the waiting thread is at `w`.
abbrev pub waiting : ℕ → Waiter → Threads
waiting n w = record {
  uncounted = 0;
  pending = n;
  to_notify = 0;
  async_op_count = pos n;
  waiter = w;
}

-- All callbacks can end between the test and the sleep of the waiting thread.
all_complete : (n : ℕ) → Steps (waiting n unsatisfied) (waiting 0 asleep)
all_complete zero = step sleep stop
all_complete (suc n) = step subtract (step notify (all_complete n))

abbrev IsAsleep : Waiter → Type 0
IsAsleep asleep = Unit
IsAsleep _ = ⊥

abbrev IsQuiet : Threads → Type 0
IsQuiet s = (s.uncounted ≡ 0) × (s.pending ≡ 0) × (s.to_notify ≡ 0) × IsAsleep s.waiter

IsQuiet-still : {s t : Threads} → IsQuiet s → ¬ Step s t
IsQuiet-still (a, b, c, d) issue = d
IsQuiet-still (a, b, c, d) count = omega arith
IsQuiet-still (a, b, c, d) subtract = omega arith
IsQuiet-still (a, b, c, d) notify = omega arith
IsQuiet-still (a, b, c, d) close = d
IsQuiet-still (a, b, c, d) pass = d
IsQuiet-still (a, b, c, d) (refuse ne) = d
IsQuiet-still (a, b, c, d) sleep = d

-- However many requests are pending when `Close` begins to wait, if there is one, the callbacks can end
-- so that the waiting thread sleeps with the count at 0 and nothing left to wake it: no thread has a
-- step then, and `Close` does not return.
pub waiting-stuck :
    (n : ℕ)
    → Steps (waiting (suc n) testing) (waiting 0 asleep)
      × ((s : Threads) → ¬ Step (waiting 0 asleep) s)
waiting-stuck n = (
  step (refuse (λ e. cc)) (all_complete (suc n)),
  λ s one. IsQuiet-still (refl, refl, refl, tt) one,
)
