-- ===== src/Workload/Keys.antt =====
-- Which keys the transactions draw.
use ycsb_c_copy.Generator.Counter
use ycsb_c_copy.Generator.Uniform
use ycsb_c_copy.Generator.Uniform.{UniformGenerator}
use ycsb_c_copy.Platform.{Platform}
use ycsb_c_copy.Prelude.Int.{pos}
use ycsb_c_copy.Prelude.{ℕ, ◌^◌, ◌≤◌, ◌<◌, ◌≡◌, false, Bytes, arith, ge→ltb, ltb}
use ycsb_c_copy.Run.{ok, ◌>>=◌}
use ycsb_c_copy.Workload.Names.{key_index, build_key_name-real_key}
use ycsb_c_copy.BlockDb.{real_key}
use ycsb_c_copy.Workload.{
  World, Generator, uniform, draw_key, draw_inserted_key, next_transaction_key, next_value,
}

-- `w` with another key chooser.
abbrev pub with_chooser : (𝒫 : Platform) → World 𝒫 → Generator 𝒫 → World 𝒫
with_chooser 𝒫 w g = record w { workload = record w.workload { key_chooser = g } }

-- `w` with another counter of the keys to insert.
abbrev pub with_counter : (𝒫 : Platform) → World 𝒫 → Counter.CounterGenerator → World 𝒫
with_counter 𝒫 w g = record w { workload = record w.workload { key_generator = g } }

module _ (𝒫 : Platform) (draws : Uniform.DrawsWithin 𝒫) where
  draw_key_uniform :
      (w : World 𝒫) (g : UniformGenerator 𝒫)
      → w.workload.key_chooser ≡ uniform g
      → draw_key 𝒫 w ≡ ok ((Uniform.next 𝒫 g).0, with_chooser 𝒫 w (uniform (Uniform.next 𝒫 g).1))
  unfolding draw_key next_value
  draw_key_uniform w g e = rw e

  -- With the uniform distribution over keys that have been inserted, the loop of `NextTransactionKey`
  -- ends in its first round: the key's index is below the record count, and only the key chooser has
  -- moved, to a chooser over the same keys.
  pub next_transaction_key_uniform :
      (w : World 𝒫) (g : UniformGenerator 𝒫)
      → w.workload.key_chooser ≡ uniform g
      → Uniform.IsValid 𝒫 g
      → g.dist_max ≤ Counter.last w.workload.insert_key_sequence
      → 0 < w.workload.record_count
      → w.workload.record_count ≤ 2 ^ 31
      → (key : Bytes) × (i : ℕ) × (g' : UniformGenerator 𝒫) × (next_transaction_key 𝒫 1 w
          ≡ ok (key, with_chooser 𝒫 w (uniform g')))
        × (real_key key ≡ ok (pos i))
        × (i < w.workload.record_count)
        × Uniform.IsValid 𝒫 g'
        × (g'.dist_max ≡ g.dist_max)
  unfolding next_transaction_key draw_inserted_key
  next_transaction_key_uniform w g chooser valid inserted some_records fits =
      let (valid', lo, hi, last) = Uniform.next-IsValid 𝒫 draws g valid in
      let v = (Uniform.next 𝒫 g).0 in
      let g' = (Uniform.next 𝒫 g).1 in
      let (key, named, reads, below) =
        build_key_name-real_key 𝒫 (with_chooser 𝒫 w (uniform g')).workload v some_records fits in
      let early : ltb (Counter.last w.workload.insert_key_sequence) v ≡ false =
        ge→ltb _ _ (omega (arith, valid'.high)) in
      (
        key,
        key_index w.workload.ordered_inserts w.workload.record_count v,
        g',
        rw (draw_key_uniform w g chooser, ◌>>=◌, early, named),
        reads,
        below,
        valid',
        hi,
      )
