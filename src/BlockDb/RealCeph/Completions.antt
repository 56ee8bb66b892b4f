-- ===== src/BlockDb/RealCeph/Completions.antt =====
-- The completions of asynchronous requests and the wait of `Close` in db/real_ceph_db.h, as steps of
-- threads: a callback subtracts and then notifies, without the mutex that the waiting thread holds
-- while it tests the count.
pub mod Waits
use ycsb_c_copy.Prelude.Int.{ℤ, pos, negsuc, increment, decrement}
use ycsb_c_copy.Prelude.{ℕ, zero, suc, ◌+◌, ◌≡◌, ◌≢◌, refl, subst, arith}

-- The thread that calls `Close`: before it, at the test of `wait`, after a test that was false, asleep,
-- and past `wait`.
pub data Waiter : Type 0 where
  idle testing unsatisfied asleep done : Waiter

-- `uncounted` requests are issued and not yet added to the count; `pending` ones have not yet been
-- subtracted; `to_notify` callbacks have subtracted and not yet notified.
pub record Threads : Type 0 where
  pub uncounted : ℕ
  pub pending : ℕ
  pub to_notify : ℕ
  pub async_op_count : ℤ
  pub waiter : Waiter

-- `notify_all`
abbrev pub woken : Waiter → Waiter
woken idle = idle
woken testing = testing
woken unsatisfied = unsatisfied
woken asleep = testing
woken done = done

-- The steps of the threads, without spurious wake-ups. `main` calls `Close` when all clients are done.
pub data Step : Threads → Threads → Type 0 where
  issue :
      {u p q : ℕ} {n : ℤ}
      → Step
          (record { uncounted = u; pending = p; to_notify = q; async_op_count = n; waiter = idle })
          (record {
            uncounted = u + 1;
            pending = p + 1;
            to_notify = q;
            async_op_count = n;
            waiter = idle;
          })
  count :
      {u p q : ℕ} {n : ℤ} {w : Waiter}
      → Step
          (record { uncounted = suc u; pending = p; to_notify = q; async_op_count = n; waiter = w })
          (record {
            uncounted = u;
            pending = p;
            to_notify = q;
            async_op_count = increment n;
            waiter = w;
          })
  subtract :
      {u p q : ℕ} {n : ℤ} {w : Waiter}
      → Step
          (record { uncounted = u; pending = suc p; to_notify = q; async_op_count = n; waiter = w })
          (record {
            uncounted = u;
            pending = p;
            to_notify = q + 1;
            async_op_count = decrement n;
            waiter = w;
          })
  notify :
      {u p q : ℕ} {n : ℤ} {w : Waiter}
      → Step
          (record { uncounted = u; pending = p; to_notify = suc q; async_op_count = n; waiter = w })
          (record {
            uncounted = u;
            pending = p;
            to_notify = q;
            async_op_count = n;
            waiter = woken w;
          })
  close :
      {p q : ℕ} {n : ℤ}
      → Step
          (record { uncounted = 0; pending = p; to_notify = q; async_op_count = n; waiter = idle })
          (record {
            uncounted = 0;
            pending = p;
            to_notify = q;
            async_op_count = n;
            waiter = testing;
          })
  pass :
      {u p q : ℕ}
      → Step
          (record {
            uncounted = u;
            pending = p;
            to_notify = q;
            async_op_count = pos 0;
            waiter = testing;
          })
          (record {
            uncounted = u;
            pending = p;
            to_notify = q;
            async_op_count = pos 0;
            waiter = done;
          })
  refuse :
      {u p q : ℕ} {n : ℤ}
      → n ≢ pos 0
      → Step
          (record {
            uncounted = u;
            pending = p;
            to_notify = q;
            async_op_count = n;
            waiter = testing;
          })
          (record {
            uncounted = u;
            pending = p;
            to_notify = q;
            async_op_count = n;
            waiter = unsatisfied;
          })
  sleep :
      {u p q : ℕ} {n : ℤ}
      → Step
          (record {
            uncounted = u;
            pending = p;
            to_notify = q;
            async_op_count = n;
            waiter = unsatisfied;
          })
          (record {
            uncounted = u;
            pending = p;
            to_notify = q;
            async_op_count = n;
            waiter = asleep;
          })

pub data Steps : Threads → Threads → Type 0 where
  stop : {s : Threads} → Steps s s
  step : {s t u : Threads} → Step s t → Steps t u → Steps s u

-- No request and no thread.
abbrev pub start : Threads
start = record { uncounted = 0; pending = 0; to_notify = 0; async_op_count = pos 0; waiter = idle }
