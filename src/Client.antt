-- ===== src/Client.antt =====
-- core/client.h: `Client`, on any database. The conversion of `DB::kOK` and the other codes to the
-- `int` status is left out: no database here returns a negative code, so `status >= 0` holds.
pub mod Loading
pub mod FieldReads
use ycsb_c_copy.Db.{Db, KvPair, k_ok}
use ycsb_c_copy.Platform.{Platform}
use ycsb_c_copy.Prelude.Int.{to_int32}
use ycsb_c_copy.Prelude.{
  ℕ, zero, suc, ◌+◌, Bool, true, false, List, [], ◌∷◌, ◌++◌, Option, none, some, ◌==◌,
  if◌then◌else◌, Bytes, codes,
}
use ycsb_c_copy.Run.{Run, ok, ◌>>=◌}
use ycsb_c_copy.Workload.{
  Operation, insert, read, update, scan, read_modify_write, World, next_sequence_key,
  next_transaction_key, next_operation, next_field_name, next_scan_length, build_values,
  build_update,
}

-- What a client works on: the workload and the database, both shared with the other clients.
pub record Client (𝒫 : Platform) (𝒟 : Db) : Type 0 where
  pub world : World 𝒫
  pub db : 𝒟.State

module _ (𝒫 : Platform) (𝒟 : Db) where
  unfoldable pub do_insert : Client 𝒫 𝒟 → Run (Bool × Client 𝒫 𝒟)
  do_insert c = do
    (key, w) ← next_sequence_key 𝒫 c.world
    (pairs, w') ← build_values 𝒫 w
    (code, db) ← 𝒟.insert w'.workload.table_name key pairs c.db
    ok (code == k_ok, record { world = w'; db = db })

  -- The `fields` argument of a read: one field's name, or a null pointer for all fields. The client
  -- puts "field" in front of what `NextFieldName` returns.
  unfoldable pub choose_fields : World 𝒫 → Run (Option (List Bytes) × World 𝒫)
  choose_fields w =
      if w.workload.read_all_fields
      then ok (none, w)
      else next_field_name 𝒫 w >>= (λ r. ok (some ((codes "field" ++ r.0) ∷ []), r.1))

  -- The values that an update writes.
  unfoldable pub choose_values : World 𝒫 → Run (List KvPair × World 𝒫)
  choose_values w = if w.workload.write_all_fields then build_values 𝒫 w else build_update 𝒫 w

  -- The fuel of these functions is for the loop of `NextTransactionKey`.
  unfoldable pub transaction_read : ℕ → Client 𝒫 𝒟 → Run (ℕ × List KvPair × Client 𝒫 𝒟)
  unfolding choose_fields
  transaction_read fuel c = do
    (key, w) ← next_transaction_key 𝒫 fuel c.world
    (fields, w') ← choose_fields w
    (code, result, db) ← 𝒟.read w'.workload.table_name key fields [] c.db
    ok (code, result, record { world = w'; db = db })

  -- What the first read returns is not looked at.
  unfoldable pub transaction_read_modify_write : ℕ → Client 𝒫 𝒟 → Run (ℕ × Client 𝒫 𝒟)
  unfolding choose_fields choose_values
  transaction_read_modify_write fuel c = do
    (key, w) ← next_transaction_key 𝒫 fuel c.world
    (fields, w') ← choose_fields w
    (read_code, result, db) ← 𝒟.read w'.workload.table_name key fields [] c.db
    (values, w'') ← choose_values w'
    (code, db') ← 𝒟.update w''.workload.table_name key values db
    ok (code, record { world = w''; db = db' })

  unfoldable pub transaction_scan : ℕ → Client 𝒫 𝒟 → Run (ℕ × List (List KvPair) × Client 𝒫 𝒟)
  unfolding choose_fields
  transaction_scan fuel c = do
    (key, w) ← next_transaction_key 𝒫 fuel c.world
    (len, w') ← next_scan_length 𝒫 w
    (fields, w'') ← choose_fields w'
    (code, result, db) ← 𝒟.scan w''.workload.table_name key (to_int32 len) fields [] c.db
    ok (code, result, record { world = w''; db = db })

  unfoldable pub transaction_update : ℕ → Client 𝒫 𝒟 → Run (ℕ × Client 𝒫 𝒟)
  unfolding choose_values
  transaction_update fuel c = do
    (key, w) ← next_transaction_key 𝒫 fuel c.world
    (values, w') ← choose_values w
    (code, db) ← 𝒟.update w'.workload.table_name key values c.db
    ok (code, record { world = w'; db = db })

  unfoldable pub transaction_insert : Client 𝒫 𝒟 → Run (ℕ × Client 𝒫 𝒟)
  transaction_insert c = do
    (key, w) ← next_sequence_key 𝒫 c.world
    (values, w') ← build_values 𝒫 w
    (code, db) ← 𝒟.insert w'.workload.table_name key values c.db
    ok (code, record { world = w'; db = db })

  -- The switch of `DoTransaction`.
  unfoldable pub perform : ℕ → Operation → Client 𝒫 𝒟 → Run (ℕ × Client 𝒫 𝒟)
  unfolding transaction_read transaction_update transaction_insert transaction_scan
      transaction_read_modify_write
  perform fuel read c = transaction_read fuel c >>= (λ r. ok (r.0, r.2))
  perform fuel update c = transaction_update fuel c
  perform fuel insert c = transaction_insert c
  perform fuel scan c = transaction_scan fuel c >>= (λ r. ok (r.0, r.2))
  perform fuel read_modify_write c = transaction_read_modify_write fuel c

  unfoldable pub do_transaction : ℕ → Client 𝒫 𝒟 → Run (Bool × Client 𝒫 𝒟)
  unfolding perform
  do_transaction fuel c = do
    (op, w) ← next_operation 𝒫 c.world
    (status, c') ← perform fuel op (record c { world = w })
    ok (status == k_ok, c')
