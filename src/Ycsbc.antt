-- ===== src/Ycsbc.antt =====
-- ycsbc.cc: the command line, the work of one thread, and the shares of the threads.
pub mod CommandLine
pub mod Threads
pub mod RecordKeys
pub mod Loading
pub mod Interleaving
use ycsb_c_copy.Client.{Client, do_insert, do_transaction}
use ycsb_c_copy.Db.{Db}
use ycsb_c_copy.Platform.{Platform}
use ycsb_c_copy.Number.{stoi}
use ycsb_c_copy.Prelude.Int.{ℤ, pos, negsuc, rounds}
use ycsb_c_copy.Prelude.{
  ℕ, zero, suc, ◌+◌, ◌*◌, ◌/◌, Bool, true, false, ◌-◌, ◌==◌, if◌then◌else◌, codes,
}
use ycsb_c_copy.Properties.{Properties, at, get_property}
use ycsb_c_copy.Run.{Run, ok, fault, undefined, ◌>>=◌}
use ycsb_c_copy.Workload.{World}

-- `total_ops / num_threads` with `int`s, which rounds toward zero, for a positive `num_threads`.
unfoldable pub share_of : ℤ → ℕ → ℤ
share_of (pos t) n = pos (t / n)
share_of (negsuc t) n = let q = (t + 1) / n in if q == 0 then pos 0 else negsuc (q - 1)

module _ (𝒫 : Platform) (𝒟 : Db) where
  -- One round of the loop; the fuel is for the loop of `NextTransactionKey`.
  unfoldable pub round : ℕ → Bool → Client 𝒫 𝒟 → Run (Bool × Client 𝒫 𝒟)
  round fuel true c = do_insert 𝒫 𝒟 c
  round fuel false c = do_transaction 𝒫 𝒟 fuel c

  -- The loop of `DelegateClient`, by the rounds left.
  unfoldable pub delegate_from : ℕ → ℕ → Bool → ℕ → Client 𝒫 𝒟 → Run (ℕ × Client 𝒫 𝒟)
  unfolding round
  delegate_from fuel zero is_loading oks c = ok (oks, c)
  delegate_from fuel (suc n) is_loading oks c = do
    (done, c') ← round fuel is_loading c
    delegate_from fuel n is_loading (oks + (if done then 1 else 0)) c'

  unfoldable pub delegate_client : ℕ → ℤ → Bool → Client 𝒫 𝒟 → Run (ℕ × Client 𝒫 𝒟)
  unfolding delegate_from
  delegate_client fuel num_ops is_loading c = do
    db ← 𝒟.init is_loading c.db
    delegate_from fuel (rounds num_ops) is_loading 0 (record c { db = db })

  -- The threads of a phase, and the sum of what their futures give. Here they run one after the other,
  -- which is one of the schedules that `std::async` allows.
  unfoldable pub run_threads : ℕ → ℕ → ℤ → Bool → ℕ → Client 𝒫 𝒟 → Run (ℕ × Client 𝒫 𝒟)
  run_threads fuel zero share is_loading sum c = ok (sum, c)
  run_threads fuel (suc n) share is_loading sum c = do
    (oks, c') ← delegate_client fuel share is_loading c
    run_threads fuel n share is_loading (sum + oks) c'

  -- One phase of `main`: with no positive number of threads its loop starts none.
  unfoldable pub phase : ℕ → ℤ → ℤ → Bool → Client 𝒫 𝒟 → Run (ℕ × Client 𝒫 𝒟)
  unfolding run_threads share_of
  phase fuel num_threads total_ops is_loading c =
      run_threads fuel (rounds num_threads) (share_of total_ops (rounds num_threads)) is_loading 0 c

  -- `main` after `Init`: the two phases and the end of the database. The results are the numbers of
  -- records loaded and of transactions done.
  unfoldable pub run_phases : ℕ → Properties → Client 𝒫 𝒟 → Run (ℕ × ℕ × Client 𝒫 𝒟)
  unfolding phase
  run_phases fuel props c = do
    num_threads ← stoi (get_property props (codes "threadcount") (codes "1"))
    records ← at props (codes "recordcount")
    total_records ← stoi records
    (loaded, c1) ← phase fuel num_threads total_records true c
    operations ← at props (codes "operationcount")
    total_ops ← stoi operations
    (done, c2) ← phase fuel num_threads total_ops false c1
    closed ← 𝒟.close c2.db
    handled ← 𝒟.handle_all_data closed
    ok (loaded, done, record c2 { db = handled })
