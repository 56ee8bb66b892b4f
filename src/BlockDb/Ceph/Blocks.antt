-- ===== src/BlockDb/Ceph/Blocks.antt =====
-- What `CephDB` writes, and what the loading phase leaves in it.
use ycsb_c_copy.BlockDb.Ceph.Counting.{HasBlock, block_of_lem}
use ycsb_c_copy.BlockDb.Ceph.{CephDb, set_block, init, read, update, insert, insert_block, ceph_db}
use ycsb_c_copy.BlockDb.{load, transaction, real_key, read_done, update_done}
use ycsb_c_copy.Client.Loading.{counted}
use ycsb_c_copy.Client.{Client, do_insert}
use ycsb_c_copy.Db.{KvPair, k_ok}
use ycsb_c_copy.Generator.Counter
use ycsb_c_copy.Generator.Uniform
use ycsb_c_copy.Platform.{Platform}
use ycsb_c_copy.Prelude.Int.{ℤ, pos, rounds}
use ycsb_c_copy.Prelude.{
  ℕ, zero, suc, ◌+◌, ◌*◌, ◌≤◌, ◌<◌, ◌≡◌, ◌⊎◌, refl, ◌∙◌, ap, true, List, [], ◌∷◌, ◌++◌, Option,
  Bytes, arith,
}
use ycsb_c_copy.Run.{ok, ◌>>=◌}
use ycsb_c_copy.Workload.Names.{build_key_name-ok}
use ycsb_c_copy.Workload.Values.{CanFill, moved, build_values-AreFields}
use ycsb_c_copy.Workload.{World, next_sequence_key}
use ycsb_c_copy.Ycsbc.{round, delegate_from, delegate_client}

-- Block `n` of the memory is filled with `byte`, and no other byte has changed.
abbrev pub Fills : (ℕ → ℕ) → ℕ → ℕ → (ℕ → ℕ) → Type 0
Fills before n byte after =
    (i : ℕ)
    → ((n * 4096 ≤ i) → (i < (n + 1) * 4096) → after i ≡ byte)
      × ((i < n * 4096) ⊎ ((n + 1) * 4096 ≤ i) → after i ≡ before i)

set_block-Fills :
    (memory : ℕ → ℕ) (n byte : ℕ) → Fills memory n byte (set_block memory (n * 4096) byte)
unfolding set_block
set_block-Fills memory n byte i = (λ lo hi. ground arith, λ out. ground arith)

module _ (𝒫 : Platform) where
  -- On a key whose block lies in the file, `Update` fills that block with `a` and, in the transaction
  -- phase, `Insert` fills it with `b`; no other byte of the file changes, and both return `kOK`. The
  -- values to write are not looked at. `Read` returns `kOK` and no field.
  pub writes_lem :
      (table key : Bytes) (values : List KvPair) (fields : Option (List Bytes))
      (result : List KvPair) (db : CephDb 𝒫)
      → HasBlock db.filesize key
      → db.meter.phase ≡ transaction
      → (n : ℕ) × (real_key key ≡ ok (pos n))
        × ((u : CephDb 𝒫) × (update 𝒫 table key values db ≡ ok (k_ok, u))
            × Fills db.memory n b'a' u.memory)
        × ((w : CephDb 𝒫) × (insert 𝒫 table key values db ≡ ok (k_ok, w))
            × Fills db.memory n b'b' w.memory)
        × ((r : CephDb 𝒫) × (read 𝒫 table key fields result db ≡ ok (k_ok, result, r))
            × (r.memory ≡ db.memory))
  unfolding update insert insert_block read
  writes_lem table key values fields result db (n, is_n, fits) phase =
      let at = block_of_lem db.filesize n fits in
      let (t, clock) = 𝒫.measure db.meter.clock in
      (
        n,
        is_n,
        (
          record db {
            meter = update_done 𝒫 db.meter;
            memory = set_block db.memory (n * 4096) b'a';
          },
          rw (is_n, at),
          set_block-Fills db.memory n b'a',
        ),
        (
          record db {
            meter = record db.meter {
              ops = db.meter.ops + 1;
              insert_time = db.meter.insert_time ++ t ∷ [];
              clock = clock;
            };
            memory = set_block db.memory (n * 4096) b'b';
          },
          rw (phase, is_n, at),
          set_block-Fills db.memory n b'b',
        ),
        (record db { meter = read_done 𝒫 db.meter }, rw (is_n, at), refl),
      )

module _ (𝒫 : Platform) (draws : Uniform.DrawsWithin 𝒫) where
  do_insert_loading :
      (c : Client 𝒫 (ceph_db 𝒫 true))
      → CanFill 𝒫 draws c.world
      → 0 < c.world.workload.record_count
      → c.db.meter.phase ≡ load
      → (w : World 𝒫) × (do_insert 𝒫 (ceph_db 𝒫 true) c
          ≡ ok (true, record { world = w; db = c.db }))
        × CanFill 𝒫 draws w
        × (w.workload.record_count ≡ c.world.workload.record_count)
  unfolding do_insert next_sequence_key insert
  do_insert_loading c fill some_records loading =
      let named =
        build_key_name-ok 𝒫 c.world.workload (Counter.next c.world.workload.key_generator).0
          some_records in
      let (es, g, e, cr, built, fill', fields) =
        build_values-AreFields 𝒫 draws (counted 𝒫 c.world) fill in
      (moved 𝒫 draws (counted 𝒫 c.world) g e cr, rw (named, built, loading), fill', refl)

  loads_nothing :
      (fuel n oks : ℕ) (c : Client 𝒫 (ceph_db 𝒫 true))
      → CanFill 𝒫 draws c.world
      → 0 < c.world.workload.record_count
      → c.db.meter.phase ≡ load
      → (w : World 𝒫) × (delegate_from 𝒫 (ceph_db 𝒫 true) fuel n true oks c
          ≡ ok (oks + n, record { world = w; db = c.db }))
  unfolding delegate_from round
  loads_nothing fuel zero oks c fill some_records loading =
      (c.world, ap (λ k. ok (k, c)) (omega arith))
  loads_nothing fuel (suc n) oks c fill some_records loading =
      let (w, run, fill', same) = do_insert_loading c fill some_records loading in
      let (w', rest) =
        loads_nothing fuel n (oks + 1) (record { world = w; db = c.db }) fill'
          (rw same some_records) loading in
      (w', rw (run, ◌>>=◌, rest) (ap (λ k. ok (k, record { world = w'; db = c.db })) (omega arith)))

  -- The loading phase on `CephDB`: every insert returns `kOK` and is counted as done, and nothing is
  -- written, counted or timed: only the phase has changed.
  pub delegate_client-unchanged :
      (fuel : ℕ) (num_ops : ℤ) (c : Client 𝒫 (ceph_db 𝒫 true))
      → CanFill 𝒫 draws c.world
      → 0 < c.world.workload.record_count
      → (w : World 𝒫) × (delegate_client 𝒫 (ceph_db 𝒫 true) fuel num_ops true c
          ≡ ok (
            rounds num_ops,
            record { world = w; db = record c.db { meter = record c.db.meter { phase = load } } },
          ))
  unfolding delegate_client init
  delegate_client-unchanged fuel num_ops c fill some_records =
      let started : CephDb 𝒫 = record c.db { meter = record c.db.meter { phase = load } } in
      let (w, run) =
        loads_nothing fuel (rounds num_ops) 0 (record c { db = started }) fill some_records refl in
      (w, run ∙ ap (λ k. ok (k, record { world = w; db = started })) (omega arith))
