-- ===== src/BlockDb/Xihu.antt =====
-- db/xihu_db.h: the database behind `XihuClient`. The server's answers are a parameter; it answers in
-- the order of the requests.
pub mod Calls
use ycsb_c_copy.BlockDb.{
  Phase, invalid, load, transaction, real_key, phase_of, Meter, new_meter, read_done, update_done,
  delete_done, scan_done, insert_done, duration_of, Report,
}
use ycsb_c_copy.Db.{Db, KvPair, k_ok}
use ycsb_c_copy.Platform.{Platform}
use ycsb_c_copy.Prelude.Int.{ℤ, to_u64}
use ycsb_c_copy.Prelude.{ℕ, Bool, List, [], Option, Bytes}
use ycsb_c_copy.Run.{Run, ok, ◌>>=◌}
use ycsb_c_copy.XihuClient.{Request, Buffers, buffers_of, begin, event_loop}
use ycsb_c_copy.XihuClient

-- The client's state between its calls: `avail`, `reqs` and `resps`.
pub record XihuDb (𝒫 : Platform) : Type 0 where
  pub meter : Meter 𝒫
  pub buffers : Buffers

module _ (𝒫 : Platform) (answer : Request → ℕ × Bytes) where
  unfoldable pub new : Buffers → 𝒫.Clock → XihuDb 𝒫
  new buffers clock = record { meter = new_meter 𝒫 clock; buffers = buffers }

  unfoldable pub init : Bool → XihuDb 𝒫 → Run (XihuDb 𝒫)
  init flag db = ok (record db { meter = record db.meter { phase = phase_of flag } })

  -- One block is read into a local buffer, which is dropped; two rounds of the last loop are enough.
  unfoldable pub read :
      Bytes
      → Bytes
      → Option (List Bytes)
      → List KvPair
      → XihuDb 𝒫
      → Run (ℕ × List KvPair × XihuDb 𝒫)
  read table key fields result db = do
    n ← real_key key
    s ← begin XihuClient.read (to_u64 n) 1 (λ i. []) db.buffers
    t ← event_loop 2 answer s
    ok (k_ok, result, record { meter = read_done 𝒫 db.meter; buffers = buffers_of t })

  -- The calls of `client.write` stand in comments.
  unfoldable pub update : Bytes → Bytes → List KvPair → XihuDb 𝒫 → Run (ℕ × XihuDb 𝒫)
  update table key values db = do
    n ← real_key key
    ok (k_ok, record db { meter = update_done 𝒫 db.meter })

  unfoldable pub insert : Bytes → Bytes → List KvPair → XihuDb 𝒫 → Run (ℕ × XihuDb 𝒫)
  insert table key values db =
      let counted =
        real_key key >>= (λ n. ok (k_ok, record db { meter = insert_done 𝒫 db.meter })) in
      elim db.meter.phase [ invalid ↦ ok (k_ok, db) | load ↦ ok (k_ok, db) | transaction ↦ counted ]

  unfoldable pub scan :
      Bytes
      → Bytes
      → ℤ
      → Option (List Bytes)
      → List (List KvPair)
      → XihuDb 𝒫
      → Run (ℕ × List (List KvPair) × XihuDb 𝒫)
  scan table key len fields result db =
      ok (k_ok, result, record db { meter = scan_done 𝒫 db.meter })

  unfoldable pub delete : Bytes → Bytes → XihuDb 𝒫 → Run (ℕ × XihuDb 𝒫)
  delete table key db = ok (k_ok, record db { meter = delete_done 𝒫 db.meter })

  -- The database behind the interface.
  abbrev pub xihu_db : Db
  xihu_db = record {
    State = XihuDb 𝒫;
    init = init;
    read = read;
    scan = scan;
    update = update;
    insert = insert;
    delete = delete;
    close = λ s. ok s;
    handle_all_data = λ s. ok s;
    final_flush_disk = λ s. ok s;
  }

  -- What `HandleAllData` prints; it takes no times of flushing.
  unfoldable pub report : XihuDb 𝒫 → Report 𝒫
  report db =
      let m = db.meter in
      let ops = 𝒫.of_u64 m.ops in
      let reads = duration_of 𝒫 m.read_time in
      let inserts = duration_of 𝒫 m.insert_time in
      let updates = duration_of 𝒫 m.update_time in
      let deletes = duration_of 𝒫 m.delete_time in
      let scans = duration_of 𝒫 m.scan_time in
      let loads = duration_of 𝒫 m.load_time in
      let all = 𝒫.add (𝒫.add (𝒫.add (𝒫.add reads inserts) updates) deletes) scans in
      record {
        read_duration = reads;
        insert_duration = inserts;
        update_duration = updates;
        delete_duration = deletes;
        scan_duration = scans;
        flush_duration = 𝒫.literal 0 1;
        operations = m.ops;
        all_duration = all;
        speed = 𝒫.div (𝒫.div ops all) (𝒫.literal 1000 1);
        bandwidth =
            𝒫.div (𝒫.div (𝒫.mul (𝒫.mul (𝒫.literal 1 1) ops) (𝒫.literal 4 1)) (𝒫.literal 1024 1))
              all;
        load_duration = loads;
        load_speed = 𝒫.div (𝒫.div ops loads) (𝒫.literal 1000 1);
      }
