-- ===== src/BlockDb/Xihu/Calls.antt =====
-- What the calls of `XihuDB` leave behind.
use native.Mathlib.Nat.{mod-eq_of_lt}
use ycsb_c_copy.BlockDb.Xihu.{XihuDb, read, update, insert}
use ycsb_c_copy.BlockDb.{transaction, real_key, read_done, update_done}
use ycsb_c_copy.Db.{KvPair, k_ok}
use ycsb_c_copy.Platform.{Platform}
use ycsb_c_copy.Prelude.Int.{ℤ, pos, to_u64}
use ycsb_c_copy.Prelude.{
  ℕ, ◌+◌, ◌^◌, ◌%◌, ◌≤◌, ◌<◌, ◌≡◌, refl, subst, sym, List, [], ◌∷◌, ◌++◌, Option, Bytes, length,
  arith,
}
use ycsb_c_copy.Run.{ok}
use ycsb_c_copy.XihuClient.EventLoop.{event_loop-finished}
use ycsb_c_copy.XihuClient.Pipeline.{begin-IsSteady}
use ycsb_c_copy.XihuClient.Sending.{Answers, occurs}
use ycsb_c_copy.XihuClient.{Mission, Request, buffers_of, begin, event_loop}
use ycsb_c_copy.XihuClient

module _ (𝒫 : Platform) (answer : Request → ℕ × Bytes) where
  read_runs :
      (table key : Bytes) (fields : Option (List Bytes)) (result : List KvPair) (db : XihuDb 𝒫)
      (z : ℤ) (s t : Mission)
      → real_key key ≡ ok z
      → begin XihuClient.read (to_u64 z) 1 (λ i. []) db.buffers ≡ ok s
      → event_loop 2 answer s ≡ ok t
      → read 𝒫 answer table key fields result db
        ≡ ok (k_ok, result, record { meter = read_done 𝒫 db.meter; buffers = buffers_of t })
  unfolding read
  read_runs table key fields result db z s t named began ran = rw (named, began, ran)

  -- On a key that names block `n`, in the transaction phase, with at least 30 free pairs of buffers, no
  -- two of them the same, and a server that answers a read with the block that was asked for: `Read`,
  -- `Update` and `Insert` return `kOK` and count one call. `Read` returns no field, and the same pairs
  -- of buffers are free after it, each once; `Update` and `Insert` ask nothing of the client at all:
  -- no block is written.
  pub xihu_calls_lem :
      (blocks : ℕ → Bytes) (table key : Bytes) (values : List KvPair) (fields : Option (List Bytes))
      (result : List KvPair) (n : ℕ) (db : XihuDb 𝒫)
      → Answers blocks answer
      → real_key key ≡ ok (pos n)
      → n < 2 ^ 31
      → db.meter.phase ≡ transaction
      → 30 ≤ length db.buffers.avail
      → ((k : ℕ) → occurs k db.buffers.avail ≤ 1)
      → ((r : XihuDb 𝒫) × (read 𝒫 answer table key fields result db ≡ ok (k_ok, result, r))
          × (r.meter.ops ≡ db.meter.ops + 1)
          × ((k : ℕ) → occurs k r.buffers.avail ≡ occurs k db.buffers.avail))
        × ((u : XihuDb 𝒫) × (update 𝒫 answer table key values db ≡ ok (k_ok, u))
            × (u.meter.ops ≡ db.meter.ops + 1)
            × (u.buffers ≡ db.buffers))
        × ((w : XihuDb 𝒫) × (insert 𝒫 answer table key values db ≡ ok (k_ok, w))
            × (w.meter.ops ≡ db.meter.ops + 1)
            × (w.buffers ≡ db.buffers))
  unfolding read update insert
  xihu_calls_lem blocks table key values fields result n db answers named small phase enough
        distinct =
      let id : n % 2 ^ 64 ≡ n = mod-eq_of_lt (omega arith) in
      let (s, began, steady, m, i, x, l) =
        begin-IsSteady blocks db.buffers.avail XihuClient.read n 1 (λ i. []) db.buffers
          (omega arith) (omega arith) refl enough distinct in
      let (t, ran, quiet, count, free, sent_is, in_place) =
        event_loop-finished blocks answer XihuClient.read (λ e. answers) n 1 (λ i. []) db.buffers
          (omega arith) (omega arith) enough distinct s began in
      let (at, clock) = 𝒫.measure db.meter.clock in
      (
        (
          record { meter = read_done 𝒫 db.meter; buffers = buffers_of t },
          read_runs table key fields result db (pos n) s t named
              (subst (λ k. begin XihuClient.read k 1 (λ i. []) db.buffers ≡ ok s) (sym id) began)
              ran,
          refl,
          free,
        ),
        (record db { meter = update_done 𝒫 db.meter }, rw named, refl, refl),
        (
          record db {
            meter = record db.meter {
              ops = db.meter.ops + 1;
              insert_time = db.meter.insert_time ++ at ∷ [];
              clock = clock;
            };
          },
          rw (phase, named),
          refl,
          refl,
        ),
      )
