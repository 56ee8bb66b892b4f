-- ===== src/Tests/Missions.antt =====
-- Missions of the RPC client.
use ycsb_c_copy.BlockDb.Xihu
use ycsb_c_copy.BlockDb.Xihu.Calls
use ycsb_c_copy.BlockDb.Xihu.{XihuDb}
use ycsb_c_copy.Db.{k_ok}
use ycsb_c_copy.Prelude.{
  ℕ, ◌+◌, ◌≡◌, ◌≤◌, ◌<◌, ◌↔◌, ◌++◌, refl, List, [], ◌∷◌, true, false, none, codes, arith, length,
  min, Bytes, zero, suc, ltb, if◌then◌else◌, ◌==◌,
}
use ycsb_c_copy.Run.{ok}
use ycsb_c_copy.Tests.Blocks.{user1, in_transaction}
use ycsb_c_copy.Tests.Machine.{machine}
use ycsb_c_copy.XihuClient.Missions.{Runs-finished, Runs-progress}
use ycsb_c_copy.XihuClient.Sending.{Answers, range, occurs}
use ycsb_c_copy.XihuClient.{
  Request, Buffers, Mission, read, write, fill, deliver, begin, send, goes_on, cont_func, Runs,
  none_left, then_one, complete, msg_buffer_num,
}

-- The server's block `n` is the text of one byte `n`.
abbrev served : ℕ → Bytes
served n = n ∷ []

abbrev answer : Request → ℕ × Bytes
answer r = (r.bid, served r.bid)

answer-Answers : Answers served answer
answer-Answers r = (refl, refl)

abbrev blank : Request
blank = record { msg_type = write; bid = 0; payload = [] }

-- The client's buffers as the constructor leaves them, with no message in them.
abbrev buffers : Buffers
buffers = record { avail = range 0 msg_buffer_num; reqs = λ k. blank; resps = λ k. (0, []) }

-- No pair of buffers is free twice.
occurs-range : (k b n : ℕ) → occurs k (range b n) ≤ (if ltb k b then 0 else 1)
occurs-range k b zero = ground arith
occurs-range k b (suc n) = ground (arith, occurs-range k (b + 1) n)

occurs-range_once : (k b n : ℕ) → occurs k (range b n) ≤ 1
occurs-range_once k b n = ground (arith, occurs-range k b n)

buffers-once : (k : ℕ) → occurs k buffers.avail ≤ 1
buffers-once k = occurs-range_once k 0 msg_buffer_num

abbrev asks : ℕ → Request
asks n = record { msg_type = read; bid = n; payload = [] }

-- Two blocks from number 5 on.
abbrev two_blocks : Mission
two_blocks = record {
  msg_type = read;
  bid = 5;
  nxt = 2;
  tot = 2;
  pip = 2;
  avail = range 2 48;
  reqs = fill (fill (λ k. blank) 0 (asks 5)) 1 (asks 6);
  resps = λ k. (0, []);
  in_flight = 0 ∷ 1 ∷ [];
  sent = 5 ∷ 6 ∷ [];
  buffer = λ i. [];
}

two_blocks-begin : begin read 5 2 (λ i. []) buffers ≡ ok two_blocks
unfolding begin send
two_blocks-begin = refl

-- The second request is answered first.
abbrev one_left : Mission
one_left = record two_blocks {
  nxt = 3;
  avail = range 2 48 ++ 1 ∷ [];
  resps = λ k. if k == 1 then (6, 6 ∷ []) else (0, []);
  in_flight = 0 ∷ [];
  buffer = λ i. if i == 1 then 6 ∷ [] else [];
}

one_left-Runs : Runs answer two_blocks 1 one_left
unfolding cont_func
one_left-Runs = then_one none_left (complete (0 ∷ []) [] 1 refl refl)

Runs-finished_example :
    (1 ≤ 30)
    × ((k : ℕ) → occurs k one_left.avail + occurs k one_left.in_flight ≡ occurs k buffers.avail)
    × (◌≡◌ {A = List ℕ} (5 ∷ 6 ∷ []) (range 5 (min 3 2)))
    × ((goes_on one_left ≡ false) ↔ (one_left.in_flight ≡ []))
    × (goes_on one_left ≡ false
        → (◌≡◌ {A = ℕ} 1 2)
          × (◌≡◌ {A = List ℕ} (5 ∷ 6 ∷ []) (range 5 2))
          × (length one_left.avail ≡ length buffers.avail)
          × ((k : ℕ) → occurs k one_left.avail ≡ occurs k buffers.avail)
          × (read ≡ read → (i : ℕ) → i < 2 → one_left.buffer i ≡ served (5 + i)))
Runs-finished_example =
    Runs-finished served answer read (λ e. answer-Answers) 5 2 (λ i. []) buffers (omega arith)
      (omega arith) (omega arith) buffers-once two_blocks one_left 1 two_blocks-begin one_left-Runs

Runs-progress_example :
    (1 ≤ 2)
    × (goes_on one_left ≡ true → (r : ℕ) × (rest : List ℕ) × (one_left.in_flight ≡ r ∷ rest))
    × ((a b : List ℕ) (r : ℕ)
        → one_left.in_flight ≡ a ++ r ∷ b
        → (u : Mission) × (cont_func r (deliver answer r (record one_left { in_flight = a ++ b }))
            ≡ ok u))
Runs-progress_example =
    Runs-progress served answer read (λ e. answer-Answers) 5 2 (λ i. []) buffers (omega arith)
      (omega arith) (omega arith) buffers-once two_blocks one_left 1 two_blocks-begin one_left-Runs

abbrev client_db : XihuDb machine
client_db = record { meter = in_transaction; buffers = buffers }

xihu_calls_lem_example :
    ((r : XihuDb machine) × (Xihu.read machine answer (codes "t") (codes "user1") none [] client_db
        ≡ ok (k_ok, [], r))
      × (r.meter.ops ≡ 0 + 1)
      × ((k : ℕ) → occurs k r.buffers.avail ≡ occurs k buffers.avail))
    × ((u : XihuDb machine) × (Xihu.update machine answer (codes "t") (codes "user1") [] client_db
          ≡ ok (k_ok, u))
        × (u.meter.ops ≡ 0 + 1)
        × (u.buffers ≡ buffers))
    × ((w : XihuDb machine) × (Xihu.insert machine answer (codes "t") (codes "user1") [] client_db
          ≡ ok (k_ok, w))
        × (w.meter.ops ≡ 0 + 1)
        × (w.buffers ≡ buffers))
xihu_calls_lem_example =
    Calls.xihu_calls_lem machine answer served (codes "t") (codes "user1") [] none [] 1 client_db
      answer-Answers user1 (omega arith) refl (omega arith) buffers-once
