-- ===== src/BlockDb/CephFile/Growth.antt =====
-- What the file of `CephDB` on a stream holds after any history of calls.
use ycsb_c_copy.BlockDb.Ceph.Counting.{
  Call, init_call, read_call, scan_call, update_call, insert_call, delete_call,
}
use ycsb_c_copy.BlockDb.CephFile.{
  CephFile, offset_of, read_block, write_block, flush, init, read, scan, update, insert, delete,
}
use ycsb_c_copy.BlockDb.{
  real_key, Meter, read_done, scan_done, update_done, insert_done, delete_done,
}
use ycsb_c_copy.Platform.{Platform}
use ycsb_c_copy.Prelude.Int.{pos}
use ycsb_c_copy.Prelude.{
  ℕ, ◌+◌, ◌*◌, ◌^◌, ◌≤◌, ◌<◌, ◌≡◌, refl, sym, subst, ap, ◌∙◌, Bool, true, List, [], ◌∷◌, ◌++◌, some,
  Bytes, length, leb, ◌&&◌, length-append, replicate, arith, le→leb, append-nil, append_assoc,
}
use ycsb_c_copy.Run.{Run, ok, ◌>>=◌}

-- The key names a block whose offset fits an `int`.
abbrev pub Names : Bytes → ℕ → Type 0
Names key n = (real_key key ≡ ok (pos n)) × (n < 2 ^ 19)

-- A call on a file of `size` bytes: a block that is read lies in it.
abbrev pub FitsFile : ℕ → Call → Type 0
FitsFile size (read_call t k fs) = (n : ℕ) × Names k n × ((n + 1) * 4096 ≤ size)
FitsFile size (update_call t k vs) = (n : ℕ) × Names k n
FitsFile size (insert_call t k vs) = (n : ℕ) × Names k n
FitsFile size _ = Unit

abbrev pub FitFile : ℕ → List Call → Type 0
FitFile size [] = Unit
FitFile size (c ∷ cs) = FitsFile size c × FitFile size cs

-- The block that a call puts behind the file.
abbrev pub written : Call → Bytes
written (update_call t k vs) = replicate 4096 b'a'
written (insert_call t k vs) = replicate 4096 b'b'
written _ = []

abbrev pub all_written : List Call → Bytes
all_written [] = []
all_written (c ∷ cs) = written c ++ all_written cs

offset_of_lem : (n : ℕ) → n < 2 ^ 19 → offset_of (pos n) ≡ ok (some (n * 4096))
unfolding offset_of
offset_of_lem n h = ground arith

module _ (𝒫 : Platform) where
  abbrev pub perform : Call → CephFile 𝒫 → Run (CephFile 𝒫)
  perform (init_call flag) db = init 𝒫 flag db
  perform (read_call t k fs) db = read 𝒫 true t k fs [] db >>= (λ r. ok r.2)
  perform (scan_call t k len fs) db = scan 𝒫 true t k len fs [] db >>= (λ r. ok r.2)
  perform (update_call t k vs) db = update 𝒫 true t k vs db >>= (λ r. ok r.1)
  perform (insert_call t k vs) db = insert 𝒫 true t k vs db >>= (λ r. ok r.1)
  perform (delete_call t k) db = delete 𝒫 true t k db >>= (λ r. ok r.1)

  abbrev pub perform_all : List Call → CephFile 𝒫 → Run (CephFile 𝒫)
  perform_all [] db = ok db
  perform_all (c ∷ cs) db = perform c db >>= perform_all cs

  -- The run leaves a good stream on a file that holds `content`.
  abbrev pub Leaves : Run (CephFile 𝒫) → Bytes → Type 0
  Leaves r content =
      (db' : CephFile 𝒫) × (r ≡ ok db') × (db'.content ≡ content) × (db'.is_good ≡ true)

  flush-Leaves :
      (m : Meter 𝒫) (bytes : Bytes) (good : Bool)
      → good ≡ true
      → Leaves (ok (flush true (record { meter = m; content = bytes; is_good = good }))) bytes
  unfolding flush
  flush-Leaves m bytes good h = (_, refl, ground arith, ground (arith, h))

  perform-Leaves :
      (c : Call) (db : CephFile 𝒫)
      → db.is_good ≡ true
      → FitsFile (length db.content) c
      → Leaves (perform c db) (db.content ++ written c)
  unfolding init read scan update insert delete read_block write_block
  perform-Leaves (init_call flag) db good fits = (_, refl, sym (append-nil db.content), good)
  perform-Leaves (read_call t k fs) db good (n, (is_n, small), fits) =
      let lies : leb (n * 4096 + 4096) (length db.content) ≡ true =
        le→leb (n * 4096 + 4096) (length db.content) (omega (arith, fits)) in
      rw (is_n, offset_of_lem n small, append-nil db.content)
        (flush-Leaves (read_done 𝒫 db.meter) db.content
          (db.is_good && leb (n * 4096 + 4096) (length db.content)) (rw (good, lies) refl))
  perform-Leaves (scan_call t k len fs) db good fits =
      rw (append-nil db.content) (flush-Leaves (scan_done 𝒫 db.meter) db.content db.is_good good)
  perform-Leaves (update_call t k vs) db good (n, (is_n, small)) =
      rw (is_n, offset_of_lem n small, good)
        (flush-Leaves (update_done 𝒫 db.meter) (db.content ++ replicate 4096 b'a') true refl)
  perform-Leaves (insert_call t k vs) db good (n, (is_n, small)) =
      rw (is_n, offset_of_lem n small, good)
        (flush-Leaves (insert_done 𝒫 db.meter) (db.content ++ replicate 4096 b'b') true refl)
  perform-Leaves (delete_call t k) db good fits =
      rw (append-nil db.content) (flush-Leaves (delete_done 𝒫 db.meter) db.content db.is_good good)

  FitsFile-grow : (c : Call) (size more : ℕ) → FitsFile size c → FitsFile (size + more) c
  FitsFile-grow (init_call flag) size more h = h
  FitsFile-grow (read_call t k fs) size more (n, (is_n, small), fits) =
      (n, (is_n, small), omega (arith, fits))
  FitsFile-grow (scan_call t k len fs) size more h = h
  FitsFile-grow (update_call t k vs) size more h = h
  FitsFile-grow (insert_call t k vs) size more h = h
  FitsFile-grow (delete_call t k) size more h = h

  FitFile-grow : (cs : List Call) (size more : ℕ) → FitFile size cs → FitFile (size + more) cs
  FitFile-grow [] size more h = h
  FitFile-grow (c ∷ cs) size more (h, hs) =
      (FitsFile-grow c size more h, FitFile-grow cs size more hs)

  -- Any history of calls on a good stream, while the file opens again, on keys of block numbers below
  -- 2 ^ 19, with each block that is read in the file: it runs without a fault, the stream stays good,
  -- and the file is as it was with one block put behind it for each `Update`, of `a`, and each
  -- `Insert` of either phase, of `b`, in the order of the calls; no byte that it had is overwritten.
  pub perform_all-grows :
      (cs : List Call) (db : CephFile 𝒫)
      → db.is_good ≡ true
      → FitFile (length db.content) cs
      → Leaves (perform_all cs db) (db.content ++ all_written cs)
  perform_all-grows [] db good fits = (db, refl, sym (append-nil db.content), good)
  perform_all-grows (c ∷ cs) db good (h, hs) =
      let (d, is_d, holds, good') = perform-Leaves c db good h in
      let size : length d.content ≡ length db.content + length (written c) =
        ap length holds ∙ length-append db.content (written c) in
      let (e, is_e, holds', good'') = perform_all-grows cs d good' (
        subst (λ n. FitFile n cs) (sym size)
          (FitFile-grow cs (length db.content) (length (written c)) hs)) in
      (
        e,
        ap (λ r. r >>= perform_all cs) is_d ∙ is_e,
        holds'
            ∙ ap (λ x. x ++ all_written cs) holds
            ∙ append_assoc db.content (written c) (all_written cs),
        good'',
      )
