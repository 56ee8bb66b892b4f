-- ===== src/BlockDb/Ceph/Counting.antt =====
-- What the counters of `CephDB` say after any history of calls.
use ycsb_c_copy.BlockDb.Ceph.{
  CephDb, block_of, init, read, scan, update, insert, insert_block, delete, set_block,
}
use ycsb_c_copy.BlockDb.{real_key, Meter, Phase-cases, read_done, update_done}
use ycsb_c_copy.Db.{KvPair, k_ok}
use ycsb_c_copy.Platform.{Platform}
use ycsb_c_copy.Prelude.Int.{ℤ, pos}
use ycsb_c_copy.Prelude.{
  ℕ, ◌+◌, ◌*◌, ◌≤◌, ◌≡◌, refl, sym, subst, ◌∙◌, Bool, List, [], ◌∷◌, ◌++◌, Option, Bytes, length,
  length-append, inl, inr, arith, le→leb,
}
use ycsb_c_copy.Run.{Run, ok, ◌>>=◌}

pub data Call : Type 0 where
  init_call : Bool → Call
  read_call : (table key : Bytes) (fields : Option (List Bytes)) → Call
  scan_call : (table key : Bytes) (len : ℤ) (fields : Option (List Bytes)) → Call
  update_call : (table key : Bytes) (values : List KvPair) → Call
  insert_call : (table key : Bytes) (values : List KvPair) → Call
  delete_call : (table key : Bytes) → Call

-- The key names a block that lies in the file.
abbrev pub HasBlock : ℕ → Bytes → Type 0
HasBlock filesize key = (n : ℕ) × (real_key key ≡ ok (pos n)) × ((n + 1) * 4096 ≤ filesize)

abbrev pub FitsCall : ℕ → Call → Type 0
FitsCall filesize (read_call t k fs) = HasBlock filesize k
FitsCall filesize (update_call t k vs) = HasBlock filesize k
FitsCall filesize (insert_call t k vs) = HasBlock filesize k
FitsCall filesize _ = Unit

abbrev pub FitCalls : ℕ → List Call → Type 0
FitCalls filesize [] = Unit
FitCalls filesize (c ∷ cs) = FitsCall filesize c × FitCalls filesize cs

pub block_of_lem :
    (filesize n : ℕ) → (n + 1) * 4096 ≤ filesize → block_of filesize (pos n) ≡ ok (n * 4096)
unfolding block_of
block_of_lem filesize n h = rw (le→leb ((n + 1) * 4096) filesize h)

module _ (𝒫 : Platform) where
  abbrev pub perform : Call → CephDb 𝒫 → Run (CephDb 𝒫)
  perform (init_call flag) db = init 𝒫 flag db
  perform (read_call t k fs) db = read 𝒫 t k fs [] db >>= (λ r. ok r.2)
  perform (scan_call t k len fs) db = scan 𝒫 t k len fs [] db >>= (λ r. ok r.2)
  perform (update_call t k vs) db = update 𝒫 t k vs db >>= (λ r. ok r.1)
  perform (insert_call t k vs) db = insert 𝒫 t k vs db >>= (λ r. ok r.1)
  perform (delete_call t k) db = delete 𝒫 t k db >>= (λ r. ok r.1)

  abbrev pub perform_all : List Call → CephDb 𝒫 → Run (CephDb 𝒫)
  perform_all [] db = ok db
  perform_all (c ∷ cs) db = perform c db >>= perform_all cs

  -- Every counted call has exactly one time, and no time of loading was ever taken.
  abbrev pub IsCounted : Meter 𝒫 → Type 0
  IsCounted m =
      (m.ops
        ≡ length m.read_time
          + length m.insert_time
          + length m.update_time
          + length m.delete_time
          + length m.scan_time)
      × (m.load_time ≡ [])

  insert-IsCounted :
      (t k : Bytes) (vs : List KvPair) (db : CephDb 𝒫)
      → IsCounted db.meter
      → HasBlock db.filesize k
      → (db' : CephDb 𝒫) × (insert 𝒫 t k vs db ≡ ok (k_ok, db'))
        × IsCounted db'.meter
        × (db'.filesize ≡ db.filesize)
  unfolding insert insert_block
  insert-IsCounted t k vs db counted (n, is_n, fits) = elim (Phase-cases db.meter.phase) [
    | inl e ↦
        let (at, clock) = 𝒫.measure db.meter.clock in
        (
          record db {
            meter = record db.meter {
              ops = db.meter.ops + 1;
              insert_time = db.meter.insert_time ++ at ∷ [];
              clock = clock;
            };
            memory = set_block db.memory (n * 4096) b'b';
          },
          rw (e, is_n, block_of_lem db.filesize n fits),
          (omega (arith, length-append db.meter.insert_time (at ∷ []), counted), counted.1),
          refl,
        )
    | inr (inl e) ↦ (db, rw e, counted, refl)
    | inr (inr e) ↦ (db, rw e, counted, refl)
  ]

  perform-IsCounted :
      (c : Call) (db : CephDb 𝒫)
      → IsCounted db.meter
      → FitsCall db.filesize c
      → (db' : CephDb 𝒫) × (perform c db ≡ ok db')
        × IsCounted db'.meter
        × (db'.filesize ≡ db.filesize)
  unfolding init read scan update delete
  perform-IsCounted (init_call flag) db counted fits = (_, refl, counted, refl)
  perform-IsCounted (read_call t k fs) db counted (n, is_n, fits) = (
    record db { meter = read_done 𝒫 db.meter },
    rw (is_n, block_of_lem db.filesize n fits),
    (
      omega (arith, length-append db.meter.read_time ((𝒫.measure db.meter.clock).0 ∷ []), counted),
      counted.1,
    ),
    refl,
  )
  perform-IsCounted (scan_call t k len fs) db counted fits = (
    _,
    refl,
    (
      omega (arith, length-append db.meter.scan_time ((𝒫.measure db.meter.clock).0 ∷ []), counted),
      counted.1,
    ),
    refl,
  )
  perform-IsCounted (update_call t k vs) db counted (n, is_n, fits) = (
    record db { meter = update_done 𝒫 db.meter; memory = set_block db.memory (n * 4096) b'a' },
    rw (is_n, block_of_lem db.filesize n fits),
    (
      omega
          (arith, length-append db.meter.update_time ((𝒫.measure db.meter.clock).0 ∷ []), counted),
      counted.1,
    ),
    refl,
  )
  perform-IsCounted (insert_call t k vs) db counted fits =
      let (db', run, c, s) = insert-IsCounted t k vs db counted fits in (db', rw run, c, s)
  perform-IsCounted (delete_call t k) db counted fits = (
    _,
    refl,
    (
      omega
          (arith, length-append db.meter.delete_time ((𝒫.measure db.meter.clock).0 ∷ []), counted),
      counted.1,
    ),
    refl,
  )

  -- Any history of calls of `Init`, `Read`, `Scan`, `Update`, `Insert` and `Delete`, on keys whose
  -- blocks lie in the file, runs without a fault. At its end `ops` is the number of the times taken,
  -- one for each call that counted, and no time of loading was taken at all.
  pub perform_all-IsCounted :
      (cs : List Call) (db : CephDb 𝒫)
      → IsCounted db.meter
      → FitCalls db.filesize cs
      → (db' : CephDb 𝒫) × (perform_all cs db ≡ ok db')
        × IsCounted db'.meter
        × (db'.filesize ≡ db.filesize)
  perform_all-IsCounted [] db counted fits = (db, refl, counted, refl)
  perform_all-IsCounted (c ∷ cs) db counted (fit, fits) =
      let (db', run, counted', same) = perform-IsCounted c db counted fit in
      let (db'', runs, counted'', same') =
        perform_all-IsCounted cs db' counted' (subst (λ s. FitCalls s cs) (sym same) fits) in
      (db'', rw (run, runs), counted'', same' ∙ same)
