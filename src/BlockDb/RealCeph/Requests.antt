-- ===== src/BlockDb/RealCeph/Requests.antt =====
-- Which requests the calls of `RealCephDB` issue.
use ycsb_c_copy.BlockDb.RealCeph.{
  RealCephDb, Request, read_block, write_block, offset_of, block_of_a, issue, read, update, insert,
}
use ycsb_c_copy.BlockDb.{transaction, real_key, read_done, update_done}
use ycsb_c_copy.Db.{KvPair, k_ok}
use ycsb_c_copy.Platform.{Platform}
use ycsb_c_copy.Prelude.Int.{pos, increment}
use ycsb_c_copy.Prelude.{
  ℕ, ◌+◌, ◌*◌, ◌^◌, ◌<◌, ◌≡◌, refl, sym, ap, List, [], ◌∷◌, ◌++◌, Option, Bytes, length,
  length-append, arith,
}
use ycsb_c_copy.Run.{ok}

module _ (𝒫 : Platform) where
  -- `async_op_count` is the number of the pending requests.
  abbrev pub IsCounted : RealCephDb 𝒫 → Type 0
  IsCounted db = db.async_op_count ≡ pos (length db.pending)

  -- `after` is `before` with the request `r` issued.
  abbrev pub Issues : RealCephDb 𝒫 → Request → RealCephDb 𝒫 → Type 0
  Issues before r after =
      (after.pending ≡ before.pending ++ r ∷ [])
      × (after.meter.ops ≡ before.meter.ops + 1)
      × IsCounted after

  issued-IsCounted :
      (db : RealCephDb 𝒫) (r : Request)
      → IsCounted db
      → increment db.async_op_count ≡ pos (length (db.pending ++ r ∷ []))
  issued-IsCounted db r h = rw h (ap pos (sym (length-append db.pending (r ∷ []))))

  offset_of_lem : (n : ℕ) → n < 2 ^ 31 → offset_of (pos n) ≡ n * 4096
  offset_of_lem n h = omega arith

  -- On a key that names block `n`, in the transaction phase and while `async_op_count` is the number of
  -- pending requests: `Read` issues a read of that block and returns no field, `Update` and `Insert`
  -- issue a write of the same bytes to it, whatever the values; each counts one call and one request.
  pub image_calls_lem :
      (table key : Bytes) (values : List KvPair) (fields : Option (List Bytes))
      (result : List KvPair) (n : ℕ) (db : RealCephDb 𝒫)
      → real_key key ≡ ok (pos n)
      → n < 2 ^ 31
      → db.meter.phase ≡ transaction
      → IsCounted db
      → ((r : RealCephDb 𝒫) × (read 𝒫 table key fields result db ≡ ok (k_ok, result, r))
          × Issues db (read_block (n * 4096)) r)
        × ((u : RealCephDb 𝒫) × (update 𝒫 table key values db ≡ ok (k_ok, u))
            × Issues db (write_block (n * 4096) block_of_a) u)
        × ((w : RealCephDb 𝒫) × (insert 𝒫 table key values db ≡ ok (k_ok, w))
            × Issues db (write_block (n * 4096) block_of_a) w)
  unfolding read update insert issue
  image_calls_lem table key values fields result n db named small phase counted =
      let at = offset_of_lem n small in
      let (t, clock) = 𝒫.measure db.meter.clock in
      let write = write_block (n * 4096) block_of_a in
      let one_more = issued-IsCounted db write counted in
      (
        (
          issue 𝒫 (read_block (n * 4096)) (record db { meter = read_done 𝒫 db.meter }),
          rw (named, at),
          (refl, refl, issued-IsCounted db (read_block (n * 4096)) counted),
        ),
        (
          issue 𝒫 write (record db { meter = update_done 𝒫 db.meter }),
          rw (named, at),
          (refl, refl, one_more),
        ),
        (
          issue 𝒫 write (record db {
            meter = record db.meter {
              ops = db.meter.ops + 1;
              insert_time = db.meter.insert_time ++ t ∷ [];
              clock = clock;
            };
          }),
          rw (phase, named, at),
          (refl, refl, one_more),
        ),
      )
