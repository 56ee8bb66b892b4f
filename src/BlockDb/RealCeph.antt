-- ===== src/BlockDb/RealCeph.antt =====
-- db/real_ceph_db.h: the database on an RBD image, whose requests are asynchronous. What librados and
-- librbd return is passed in. A local buffer is the list of its bytes when a request takes it.
pub mod Completions
pub mod Requests
pub mod Closing
use ycsb_c_copy.BlockDb.{
  Phase, invalid, load, transaction, real_key, phase_of, Meter, new_meter, read_done, update_done,
  delete_done, scan_done, insert_done, duration_of, Report,
}
use ycsb_c_copy.Db.{Db, KvPair, k_ok}
use ycsb_c_copy.Platform.{Platform}
use ycsb_c_copy.Prelude.Int.{ℤ, pos, negsuc, to_u64, increment, decrement, is_negative, is_zero}
use ycsb_c_copy.Prelude.{
  ℕ, ◌+◌, ◌-◌, ◌*◌, Bool, true, false, List, [], ◌∷◌, ◌++◌, Option, none, some, if◌then◌else◌,
  Bytes, replicate,
}
use ycsb_c_copy.Run.{Run, ok, fault, exited, undefined, still_running, require, ◌>>=◌, ◌>>◌}

-- A request of one block, by its offset in the image.
pub data Request : Type 0 where
  read_block : ℕ → Request
  write_block : ℕ → Bytes → Request

-- `pending` are the requests that have not been completed; `close_time` is `CLOSE_TIME`, which the
-- constructor does not set.
pub record RealCephDb (𝒫 : Platform) : Type 0 where
  pub meter : Meter 𝒫
  pub pending : List Request
  pub async_op_count : ℤ
  pub close_time : Option 𝒫.Double

-- `1LL * RealKey * CEPHBLOCKSIZE`, as the `uint64_t` that librbd takes.
abbrev pub offset_of : ℤ → ℕ
offset_of (pos n) = to_u64 (pos (n * 4096))
offset_of (negsuc n) = to_u64 (negsuc ((n + 1) * 4096 - 1))

-- The buffer that both writes send.
abbrev pub block_of_a : Bytes
block_of_a = replicate 4095 b'a' ++ 0 ∷ []

module _ (𝒫 : Platform) where
  -- The constructor, by the results of `rados_create`, `rados_conf_read_file`, `rados_connect`,
  -- `rados_ioctx_create` and `rbd_open`: the first that is negative ends the program.
  unfoldable pub new : List ℤ → 𝒫.Clock → Run (RealCephDb 𝒫)
  new [] clock = ok (record {
    meter = new_meter 𝒫 clock;
    pending = [];
    async_op_count = pos 0;
    close_time = none;
  })
  new (err ∷ results) clock =
      let rest = new results clock in if is_negative err then fault (exited 1) else rest

  unfoldable pub init : Bool → RealCephDb 𝒫 → Run (RealCephDb 𝒫)
  init flag db = ok (record db { meter = record db.meter { phase = phase_of flag } })

  -- `rbd_aio_read` or `rbd_aio_write`, and `async_op_count++`.
  unfoldable pub issue : Request → RealCephDb 𝒫 → RealCephDb 𝒫
  issue r db = record db {
    pending = db.pending ++ r ∷ [];
    async_op_count = increment db.async_op_count;
  }

  unfoldable pub read :
      Bytes
      → Bytes
      → Option (List Bytes)
      → List KvPair
      → RealCephDb 𝒫
      → Run (ℕ × List KvPair × RealCephDb 𝒫)
  unfolding issue
  read table key fields result db = do
    n ← real_key key
    ok (k_ok, result, issue (read_block (offset_of n)) (record db { meter = read_done 𝒫 db.meter }))

  unfoldable pub update : Bytes → Bytes → List KvPair → RealCephDb 𝒫 → Run (ℕ × RealCephDb 𝒫)
  unfolding issue
  update table key values db = do
    n ← real_key key
    ok (
      k_ok,
      issue (write_block (offset_of n) block_of_a) (record db { meter = update_done 𝒫 db.meter }),
    )

  unfoldable pub insert : Bytes → Bytes → List KvPair → RealCephDb 𝒫 → Run (ℕ × RealCephDb 𝒫)
  unfolding issue
  insert table key values db =
      let written = real_key key >>= (λ n. ok (
        k_ok,
        issue (write_block (offset_of n) block_of_a) (record db { meter = insert_done 𝒫 db.meter }),
      )) in
      elim db.meter.phase [ invalid ↦ ok (k_ok, db) | load ↦ ok (k_ok, db) | transaction ↦ written ]

  unfoldable pub scan :
      Bytes
      → Bytes
      → ℤ
      → Option (List Bytes)
      → List (List KvPair)
      → RealCephDb 𝒫
      → Run (ℕ × List (List KvPair) × RealCephDb 𝒫)
  scan table key len fields result db =
      ok (k_ok, result, record db { meter = scan_done 𝒫 db.meter })

  unfoldable pub delete : Bytes → Bytes → RealCephDb 𝒫 → Run (ℕ × RealCephDb 𝒫)
  delete table key db = ok (k_ok, record db { meter = delete_done 𝒫 db.meter })

  -- The callbacks, each by the value that `rbd_aio_get_return_value` gives, once the request is no
  -- longer pending. A failed read goes unnoticed; a failed write ends the program.
  unfoldable pub read_completed : ℤ → List Request → RealCephDb 𝒫 → Run (RealCephDb 𝒫)
  read_completed ret left db =
      ok (record db { pending = left; async_op_count = decrement db.async_op_count })

  unfoldable pub write_completed : ℤ → List Request → RealCephDb 𝒫 → Run (RealCephDb 𝒫)
  write_completed ret left db =
      if is_negative ret
      then fault (exited 1)
      else ok (record db { pending = left; async_op_count = decrement db.async_op_count })

  unfoldable pub complete : Request → ℤ → List Request → RealCephDb 𝒫 → Run (RealCephDb 𝒫)
  unfolding read_completed write_completed
  complete (read_block offset) ret left db = read_completed ret left db
  complete (write_block offset buf) ret left db = write_completed ret left db

  -- `wait_for_all_async_ops`, which sleeps until `async_op_count == 0`, when the requests `left`
  -- complete in the order in which they were issued and each wakes it; `results` is what each of them
  -- returns. With none left and another count it sleeps for ever.
  unfoldable pub wait_for_all : (Request → ℤ) → List Request → RealCephDb 𝒫 → Run (RealCephDb 𝒫)
  unfolding complete
  wait_for_all results [] db = if is_zero db.async_op_count then ok db else fault still_running
  wait_for_all results (r ∷ left) db =
      let rest = complete r (results r) left db >>= wait_for_all results left in
      if is_zero db.async_op_count then ok db else rest

  -- `elapsed` is the number of microseconds that `Close` takes for the wait. `rbd_close` and the rest
  -- of `Close` only end the image.
  unfoldable pub close : (Request → ℤ) → ℕ → RealCephDb 𝒫 → Run (RealCephDb 𝒫)
  unfolding wait_for_all
  close results elapsed db = do
    db' ← wait_for_all results db.pending db
    ok (record db' { close_time = some (𝒫.of_u64 elapsed) })

  -- The figures of `HandleAllData` that come from the times and the count of the calls.
  unfoldable pub figures : RealCephDb 𝒫 → Report 𝒫
  figures db =
      let m = db.meter in
      let ops = 𝒫.of_u64 m.ops in
      let reads = duration_of 𝒫 m.read_time in
      let inserts = duration_of 𝒫 m.insert_time in
      let updates = duration_of 𝒫 m.update_time in
      let deletes = duration_of 𝒫 m.delete_time in
      let scans = duration_of 𝒫 m.scan_time in
      let flushes = duration_of 𝒫 m.flush_time in
      let all = 𝒫.add (𝒫.add (𝒫.add (𝒫.add (𝒫.add reads inserts) updates) deletes) scans) flushes in
      record {
        read_duration = reads;
        insert_duration = inserts;
        update_duration = updates;
        delete_duration = deletes;
        scan_duration = scans;
        flush_duration = flushes;
        operations = m.ops;
        all_duration = all;
        speed = 𝒫.div (𝒫.div ops all) (𝒫.literal 1000 1);
        bandwidth =
            𝒫.div (𝒫.div (𝒫.mul (𝒫.mul (𝒫.literal 1 1) ops) (𝒫.literal 4 1)) (𝒫.literal 1024 1))
              all;
        load_duration = 𝒫.literal 0 1;
        load_speed = 𝒫.literal 0 1;
      }

  -- What `HandleAllData` prints, `CLOSE_TIME` last; it prints no times of loading. Before `Close` has
  -- run, `CLOSE_TIME` is read without a value.
  unfoldable pub report : RealCephDb 𝒫 → Run (Report 𝒫 × 𝒫.Double)
  unfolding figures
  report db = elim db.close_time [ none ↦ fault undefined | some t ↦ ok (figures db, t) ]

  -- The database behind the interface.
  abbrev pub real_ceph_db : (Request → ℤ) → ℕ → Db
  real_ceph_db results elapsed = record {
    State = RealCephDb 𝒫;
    init = init;
    read = read;
    scan = scan;
    update = update;
    insert = insert;
    delete = delete;
    close = close results elapsed;
    handle_all_data = λ s. report s >>= (λ r. ok s);
    final_flush_disk = λ s. ok s;
  }
