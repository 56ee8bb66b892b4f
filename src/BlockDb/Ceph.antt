-- ===== src/BlockDb/Ceph.antt =====
-- db/ceph_db.h, as it is compiled: `MMAP` and `MSYNC` are defined. The database is a file in memory.
pub mod Counting
pub mod Blocks
use ycsb_c_copy.BlockDb.{
  Phase, invalid, load, transaction, real_key, phase_of, Meter, new_meter, read_done, update_done,
  delete_done, scan_done, insert_done, duration_of, Report,
}
use ycsb_c_copy.Db.{Db, KvPair, k_ok}
use ycsb_c_copy.Platform.{Platform}
use ycsb_c_copy.Prelude.Int.{ℤ, pos, negsuc}
use ycsb_c_copy.Prelude.{
  ℕ, ◌+◌, ◌*◌, Bool, true, false, ◌&&◌, List, [], ◌∷◌, ◌++◌, Option, none, some, if◌then◌else◌,
  Bytes, ltb, leb,
}
use ycsb_c_copy.Run.{Run, ok, fault, exited, undefined, ◌>>=◌}

-- `memory` is the byte at each offset from `addr`.
pub record CephDb (𝒫 : Platform) : Type 0 where
  pub meter : Meter 𝒫
  pub filesize : ℕ
  pub memory : ℕ → ℕ

-- The offset of a key's block; an access outside of the file in memory is undefined.
unfoldable pub block_of : ℕ → ℤ → Run ℕ
block_of filesize (negsuc n) = fault undefined
block_of filesize (pos n) = if leb ((n + 1) * 4096) filesize then ok (n * 4096) else fault undefined

-- `memset(offset_addr, byte, 4096)`
unfoldable pub set_block : (ℕ → ℕ) → ℕ → ℕ → ℕ → ℕ
set_block memory offset byte i = if leb offset i && ltb i (offset + 4096) then byte else memory i

module _ (𝒫 : Platform) where
  -- The constructor, by what `open`, `fstat` and `mmap` give: `none` is a failure.
  unfoldable pub new : Bool → Option ℕ → Option (ℕ → ℕ) → 𝒫.Clock → Run (CephDb 𝒫)
  new false size mapped clock = fault (exited 255)
  new true none mapped clock = fault (exited 255)
  new true (some n) none clock = fault (exited 255)
  new true (some n) (some memory) clock =
      ok (record { meter = new_meter 𝒫 clock; filesize = n; memory = memory })

  unfoldable pub init : Bool → CephDb 𝒫 → Run (CephDb 𝒫)
  init flag db = ok (record db { meter = record db.meter { phase = phase_of flag } })

  -- The block is copied to a local buffer, which is dropped.
  unfoldable pub read :
      Bytes
      → Bytes
      → Option (List Bytes)
      → List KvPair
      → CephDb 𝒫
      → Run (ℕ × List KvPair × CephDb 𝒫)
  unfolding block_of
  read table key fields result db = do
    n ← real_key key
    offset ← block_of db.filesize n
    ok (k_ok, result, record db { meter = read_done 𝒫 db.meter })

  unfoldable pub scan :
      Bytes
      → Bytes
      → ℤ
      → Option (List Bytes)
      → List (List KvPair)
      → CephDb 𝒫
      → Run (ℕ × List (List KvPair) × CephDb 𝒫)
  scan table key len fields result db =
      ok (k_ok, result, record db { meter = scan_done 𝒫 db.meter })

  -- The result of `msync` is not looked at.
  unfoldable pub update : Bytes → Bytes → List KvPair → CephDb 𝒫 → Run (ℕ × CephDb 𝒫)
  unfolding block_of set_block
  update table key values db = do
    n ← real_key key
    offset ← block_of db.filesize n
    ok (
      k_ok,
      record db { meter = update_done 𝒫 db.meter; memory = set_block db.memory offset b'a' },
    )

  -- `Insert` after its first test.
  unfoldable pub insert_block : Bytes → CephDb 𝒫 → Run (ℕ × CephDb 𝒫)
  unfolding block_of set_block
  insert_block key db = do
    n ← real_key key
    offset ← block_of db.filesize n
    ok (
      k_ok,
      record db { meter = insert_done 𝒫 db.meter; memory = set_block db.memory offset b'b' },
    )

  unfoldable pub insert : Bytes → Bytes → List KvPair → CephDb 𝒫 → Run (ℕ × CephDb 𝒫)
  unfolding insert_block
  insert table key values db = elim db.meter.phase [
    | invalid ↦ ok (k_ok, db)
    | load ↦ ok (k_ok, db)
    | transaction ↦ insert_block key db
  ]

  unfoldable pub delete : Bytes → Bytes → CephDb 𝒫 → Run (ℕ × CephDb 𝒫)
  delete table key db = ok (k_ok, record db { meter = delete_done 𝒫 db.meter })

  -- `FinalFlushDisk`, by whether its `msync` succeeds.
  unfoldable pub final_flush_disk : Bool → CephDb 𝒫 → Run (CephDb 𝒫)
  final_flush_disk false db = fault (exited 255)
  final_flush_disk true db =
      let m = db.meter in
      let (t, clock) = 𝒫.measure m.clock in
      ok (record db { meter = record m { flush_time = m.flush_time ++ t ∷ []; clock = clock } })

  unfoldable pub report : CephDb 𝒫 → Report 𝒫
  report db =
      let m = db.meter in
      let ops = 𝒫.of_u64 m.ops in
      let reads = duration_of 𝒫 m.read_time in
      let inserts = duration_of 𝒫 m.insert_time in
      let updates = duration_of 𝒫 m.update_time in
      let deletes = duration_of 𝒫 m.delete_time in
      let scans = duration_of 𝒫 m.scan_time in
      let flushes = duration_of 𝒫 m.flush_time in
      let loads = duration_of 𝒫 m.load_time in
      let all = 𝒫.add (𝒫.add (𝒫.add (𝒫.add (𝒫.add reads inserts) updates) deletes) scans) flushes in
      record {
        read_duration = reads;
        insert_duration = inserts;
        update_duration = updates;
        delete_duration = deletes;
        scan_duration = scans;
        flush_duration = flushes;
        operations = m.ops;
        all_duration = all;
        speed = 𝒫.div (𝒫.div ops all) (𝒫.literal 1000 1);
        bandwidth =
            𝒫.div (𝒫.div (𝒫.mul (𝒫.mul (𝒫.literal 1 1) ops) (𝒫.literal 4 1)) (𝒫.literal 1024 1))
              all;
        load_duration = loads;
        load_speed = 𝒫.div (𝒫.div ops loads) (𝒫.literal 1000 1);
      }

  -- The database behind the interface; `synced` says whether the last `msync` succeeds.
  abbrev pub ceph_db : Bool → Db
  ceph_db synced = record {
    State = CephDb 𝒫;
    init = init;
    read = read;
    scan = scan;
    update = update;
    insert = insert;
    delete = delete;
    close = λ s. ok s;
    handle_all_data = λ s. ok s;
    final_flush_disk = final_flush_disk synced;
  }
