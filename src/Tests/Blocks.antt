-- ===== src/Tests/Blocks.antt =====
-- The block databases at work.
use ycsb_c_copy.BlockDb.Ceph.Blocks.{Fills, writes_lem, delegate_client-unchanged}
use ycsb_c_copy.BlockDb.Ceph.Counting.{
  Call, init_call, read_call, update_call, insert_call, HasBlock, perform_all, IsCounted,
  perform_all-IsCounted,
}
use ycsb_c_copy.BlockDb.Ceph.{CephDb, ceph_db}
use ycsb_c_copy.BlockDb.RealCeph.Completions.Waits.{Balances, waiting, Steps-clear, waiting-stuck}
use ycsb_c_copy.BlockDb.RealCeph.Completions.{
  Threads, Waiter, testing, asleep, done, Step, Steps, stop, step, issue, count, subtract, close,
  pass, start,
}
use ycsb_c_copy.BlockDb.RealCeph.Closing.{closed, close-cleared}
use ycsb_c_copy.BlockDb.RealCeph.Requests
use ycsb_c_copy.BlockDb.RealCeph.{RealCephDb, read_block, write_block, block_of_a}
use ycsb_c_copy.BlockDb.RealCeph
use ycsb_c_copy.BlockDb.Ceph
use ycsb_c_copy.BlockDb.{real_key, Meter, transaction, load, new_meter}
use ycsb_c_copy.Client.{Client}
use ycsb_c_copy.BlockDb.CephFile.Growth
use ycsb_c_copy.BlockDb.CephFile.Growth.{Leaves, FitFile, all_written}
use ycsb_c_copy.BlockDb.CephFile.{CephFile}
use ycsb_c_copy.Prelude.{replicate, length-replicate, subst, sym, ◌++◌, length}
use ycsb_c_copy.Db.{k_ok}
use ycsb_c_copy.Number.{substr, stoi, read_signed, read_digits, read_magnitude, drop_space}
use ycsb_c_copy.Prelude.Int.{pos}
use ycsb_c_copy.Prelude.{ℕ, ◌*◌, ◌≡◌, refl, List, [], ◌∷◌, true, false, none, codes, arith}
use ycsb_c_copy.Run.{ok}
use ycsb_c_copy.Tests.Machine.{machine, machine_draws, small_world}
use ycsb_c_copy.Workload.{World}
use ycsb_c_copy.Ycsbc.{delegate_client}

pub user1 : real_key (codes "user1") ≡ ok (pos 1)
unfolding real_key substr stoi read_signed read_digits read_magnitude drop_space
user1 = refl

abbrev pub in_transaction : Meter machine
in_transaction = record (new_meter machine 0) { phase = transaction }

-- Four blocks of zeros.
abbrev four_blocks : CephDb machine
four_blocks = record { meter = in_transaction; filesize = 16384; memory = λ i. 0 }

has_user1 : HasBlock 16384 (codes "user1")
has_user1 = (1, user1, omega arith)

writes_lem_example :
    (n : ℕ) × (real_key (codes "user1") ≡ ok (pos n))
    × ((u : CephDb machine) × (Ceph.update machine (codes "t") (codes "user1") [] four_blocks
          ≡ ok (k_ok, u))
        × Fills (λ i. 0) n b'a' u.memory)
    × ((w : CephDb machine) × (Ceph.insert machine (codes "t") (codes "user1") [] four_blocks
          ≡ ok (k_ok, w))
        × Fills (λ i. 0) n b'b' w.memory)
    × ((r : CephDb machine) × (Ceph.read machine (codes "t") (codes "user1") none [] four_blocks
          ≡ ok (k_ok, [], r))
        × (r.memory ≡ (λ i. 0)))
writes_lem_example =
    writes_lem machine (codes "t") (codes "user1") [] none [] four_blocks has_user1 refl

abbrev calls : List Call
calls =
    init_call true
    ∷ insert_call (codes "t") (codes "user1") []
    ∷ init_call false
    ∷ update_call (codes "t") (codes "user1") []
    ∷ read_call (codes "t") (codes "user1") none
    ∷ []

perform_all-IsCounted_example :
    (db' : CephDb machine) × (perform_all machine calls four_blocks ≡ ok db')
    × IsCounted machine db'.meter
    × (db'.filesize ≡ 16384)
perform_all-IsCounted_example =
    perform_all-IsCounted machine calls four_blocks (refl, refl)
      (tt, (has_user1, (tt, (has_user1, (has_user1, tt)))))

abbrev block_client : Client machine (ceph_db machine true)
block_client = record { world = small_world true 0; db = four_blocks }

delegate_client-unchanged_example :
    (w : World machine) × (delegate_client machine
        (ceph_db machine true)
        0
        (pos 3)
        true
        block_client
      ≡ ok (
        3,
        record {
          world = w;
          db = record four_blocks { meter = record in_transaction { phase = load } };
        },
      ))
delegate_client-unchanged_example =
    delegate_client-unchanged machine machine_draws 0 (pos 3) block_client tt (omega arith)

abbrev quiet_image : RealCephDb machine
quiet_image = record {
  meter = in_transaction;
  pending = [];
  async_op_count = pos 0;
  close_time = none;
}

image_calls_lem_example :
    ((r : RealCephDb machine) × (RealCeph.read machine
          (codes "t")
          (codes "user1")
          none
          []
          quiet_image
        ≡ ok (k_ok, [], r))
      × Requests.Issues machine quiet_image (read_block (1 * 4096)) r)
    × ((u : RealCephDb machine) × (RealCeph.update machine
            (codes "t")
            (codes "user1")
            []
            quiet_image
          ≡ ok (k_ok, u))
        × Requests.Issues machine quiet_image (write_block (1 * 4096) block_of_a) u)
    × ((w : RealCephDb machine) × (RealCeph.insert machine
            (codes "t")
            (codes "user1")
            []
            quiet_image
          ≡ ok (k_ok, w))
        × Requests.Issues machine quiet_image (write_block (1 * 4096) block_of_a) w)
image_calls_lem_example =
    Requests.image_calls_lem machine (codes "t") (codes "user1") [] none [] 1 quiet_image user1
      (omega arith) refl refl

-- One request, whose callback subtracts before the count is raised.
early_callback :
    Steps start
      (record { uncounted = 0; pending = 0; to_notify = 1; async_op_count = pos 0; waiter = done })
early_callback = step issue (step subtract (step count (step close (step pass stop))))

Steps-clear_example :
    Balances (pos 0) 0 0 × (◌≡◌ {A = Waiter} done done → (◌≡◌ {A = ℕ} 0 0) × (◌≡◌ {A = ℕ} 0 0))
Steps-clear_example = Steps-clear early_callback

waiting-stuck_example :
    Steps (waiting 3 testing) (waiting 0 asleep) × ((s : Threads) → ¬ Step (waiting 0 asleep) s)
waiting-stuck_example = waiting-stuck 2

abbrev busy_image : RealCephDb machine
busy_image = record {
  meter = in_transaction;
  pending = read_block 0 ∷ write_block 4096 block_of_a ∷ [];
  async_op_count = pos 2;
  close_time = none;
}

close-cleared_example :
    RealCeph.close machine (λ r. pos 0) 40 busy_image
    ≡ ok (closed machine (λ r. pos 0) 40 busy_image)
close-cleared_example = close-cleared machine (λ r. pos 0) busy_image 40 0 refl (refl, tt)

-- A stream on two blocks of zeros.
abbrev two_blocks : CephFile machine
two_blocks = record { meter = in_transaction; content = replicate 8192 0; is_good = true }

calls-FitFile : FitFile (length two_blocks.content) calls
calls-FitFile =
    subst (λ n. FitFile n calls) (sym (length-replicate {A = ℕ} 8192 0))
      (
        tt,
        (
          (1, (user1, omega arith)),
          (tt, ((1, (user1, omega arith)), ((1, (user1, omega arith), omega arith), tt))),
        ),
      )

perform_all-grows_example :
    Leaves machine
      (Growth.perform_all machine calls two_blocks)
      (two_blocks.content ++ all_written calls)
perform_all-grows_example = Growth.perform_all-grows machine calls two_blocks refl calls-FitFile
