-- ===== src/BlockDb/CephFile.antt =====
-- db/ceph_db.h as it is compiled without `MMAP`: `CephDB` on a file stream.
pub mod Growth
use ycsb_c_copy.BlockDb.{
  real_key, phase_of, Meter, new_meter, read_done, update_done, delete_done, scan_done, insert_done,
}
use ycsb_c_copy.Db.{Db, KvPair, k_ok}
use ycsb_c_copy.Platform.{Platform}
use ycsb_c_copy.Prelude.Int.{ℤ, pos, negsuc}
use ycsb_c_copy.Prelude.{
  ℕ, ◌+◌, ◌*◌, ◌%◌, ◌^◌, Bool, true, false, ◌&&◌, List, Option, none, some, if◌then◌else◌, ◌++◌,
  Bytes, ltb, leb, ◌==◌, length, replicate,
}
use ycsb_c_copy.Run.{Run, ok, fault, exited, undefined, ◌>>=◌}

-- `content` is what the file holds, and `is_good` says that neither failbit nor badbit of the stream
-- is set. The stream is opened with `app`: `write` goes to the end of the file, wherever `seekp` has
-- put the stream.
pub record CephFile (𝒫 : Platform) : Type 0 where
  pub meter : Meter 𝒫
  pub content : Bytes
  pub is_good : Bool

-- `RealKey * 4096` is a product of `int`s, of which an overflow is undefined; `none` is a negative
-- offset, where no stream can be put.
unfoldable pub offset_of : ℤ → Run (Option ℕ)
offset_of (pos n) = if ltb n (2 ^ 19) then ok (some (n * 4096)) else fault undefined
offset_of (negsuc n) = if ltb n (2 ^ 19) then ok none else fault undefined

module _ {𝒫 : Platform} where
  -- `seekg` and `read`, which fails at the end of the file; the buffer is dropped.
  unfoldable pub read_block : Option ℕ → CephFile 𝒫 → CephFile 𝒫
  read_block none db = record db { is_good = false }
  read_block (some offset) db = record db {
    is_good = db.is_good && leb (offset + 4096) (length db.content);
  }

  -- `seekp`, `write` of 4096 times `byte`, and `flush`; a stream that has failed writes nothing.
  unfoldable pub write_block : Option ℕ → ℕ → CephFile 𝒫 → CephFile 𝒫
  write_block none byte db = record db { is_good = false }
  write_block (some offset) byte db =
      if db.is_good then record db { content = db.content ++ replicate 4096 byte } else db

  -- `Flush`: the stream is closed and opened again, which clears it; `opens` says whether that
  -- succeeds.
  unfoldable pub flush : Bool → CephFile 𝒫 → CephFile 𝒫
  flush opens db = if db.meter.ops % 10 == 0 then record db { is_good = opens } else db

module _ (𝒫 : Platform) where
  -- The constructor, by whether the file opens and what it holds.
  unfoldable pub new : Bool → Bytes → 𝒫.Clock → Run (CephFile 𝒫)
  new false content clock = fault (exited 1)
  new true content clock =
      ok (record { meter = new_meter 𝒫 clock; content = content; is_good = true })

  unfoldable pub init : Bool → CephFile 𝒫 → Run (CephFile 𝒫)
  init flag db = ok (record db { meter = record db.meter { phase = phase_of flag } })

  module _ (opens : Bool) where
    unfoldable pub read :
        Bytes
        → Bytes
        → Option (List Bytes)
        → List KvPair
        → CephFile 𝒫
        → Run (ℕ × List KvPair × CephFile 𝒫)
    unfolding offset_of read_block flush
    read table key fields result db = do
      n ← real_key key
      offset ← offset_of n
      let db' = record (read_block offset db) { meter = read_done 𝒫 db.meter }
      ok (k_ok, result, flush opens db')

    unfoldable pub scan :
        Bytes
        → Bytes
        → ℤ
        → Option (List Bytes)
        → List (List KvPair)
        → CephFile 𝒫
        → Run (ℕ × List (List KvPair) × CephFile 𝒫)
    unfolding flush
    scan table key len fields result db =
        ok (k_ok, result, flush opens (record db { meter = scan_done 𝒫 db.meter }))

    unfoldable pub update : Bytes → Bytes → List KvPair → CephFile 𝒫 → Run (ℕ × CephFile 𝒫)
    unfolding offset_of write_block flush
    update table key values db = do
      n ← real_key key
      offset ← offset_of n
      let db' = record (write_block offset b'a' db) { meter = update_done 𝒫 db.meter }
      ok (k_ok, flush opens db')

    -- In any phase.
    unfoldable pub insert : Bytes → Bytes → List KvPair → CephFile 𝒫 → Run (ℕ × CephFile 𝒫)
    unfolding offset_of write_block flush
    insert table key values db = do
      n ← real_key key
      offset ← offset_of n
      let db' = record (write_block offset b'b' db) { meter = insert_done 𝒫 db.meter }
      ok (k_ok, flush opens db')

    unfoldable pub delete : Bytes → Bytes → CephFile 𝒫 → Run (ℕ × CephFile 𝒫)
    unfolding flush
    delete table key db = ok (k_ok, flush opens (record db { meter = delete_done 𝒫 db.meter }))

    -- The database behind the interface, of which it leaves three operations empty.
    abbrev pub ceph_file_db : Db
    ceph_file_db = record {
      State = CephFile 𝒫;
      init = init;
      read = read;
      scan = scan;
      update = update;
      insert = insert;
      delete = delete;
      close = λ s. ok s;
      handle_all_data = λ s. ok s;
      final_flush_disk = λ s. ok s;
    }
