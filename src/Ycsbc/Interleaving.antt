-- ===== src/Ycsbc/Interleaving.antt =====
-- ycsbc.cc and core/client.h: the threads of the loading phase, in any order of the calls that each
-- round of `DelegateClient` makes: `NextSequenceKey`, `BuildValues` and `DB::Insert`, each one step. The
-- workload and the database are shared.
pub mod Sums
pub mod Invariant
pub mod Outcome
use ycsb_c_copy.Client.{Client}
use ycsb_c_copy.Db.{Db, KvPair, k_ok}
use ycsb_c_copy.Platform.{Platform}
use ycsb_c_copy.Prelude.{
  ℕ, zero, suc, ◌+◌, ◌≡◌, List, [], ◌∷◌, ◌++◌, Bytes, ◌==◌, if◌then◌else◌, replicate,
}
use ycsb_c_copy.Run.{ok}
use ycsb_c_copy.Workload.{World, next_sequence_key, build_values}

-- A thread between two calls, by the rounds left and those that returned true: before a round, with
-- the key of this round, or with its key and values.
pub data Thread : Type 0 where
  idle : (left oks : ℕ) → Thread
  drawn : (left oks : ℕ) (key : Bytes) → Thread
  built : (left oks : ℕ) (key : Bytes) (values : List KvPair) → Thread

module _ (𝒫 : Platform) (𝒟 : Db) where
  -- One call of a thread, between two states of what the threads share.
  pub data Acts : Client 𝒫 𝒟 → Thread → Client 𝒫 𝒟 → Thread → Type 1 where
    draws :
        (c : Client 𝒫 𝒟) (n oks : ℕ) (key : Bytes) (w : World 𝒫)
        → next_sequence_key 𝒫 c.world ≡ ok (key, w)
        → Acts c (idle (suc n) oks) (record c { world = w }) (drawn n oks key)
    builds :
        (c : Client 𝒫 𝒟) (n oks : ℕ) (key : Bytes) (values : List KvPair) (w : World 𝒫)
        → build_values 𝒫 c.world ≡ ok (values, w)
        → Acts c (drawn n oks key) (record c { world = w }) (built n oks key values)
    inserts :
        (c : Client 𝒫 𝒟) (n oks : ℕ) (key : Bytes) (values : List KvPair) (code : ℕ) (db : 𝒟.State)
        → 𝒟.insert c.world.workload.table_name key values c.db ≡ ok (code, db)
        → Acts c
            (built n oks key values)
            (record c { db = db })
            (idle n (oks + (if code == k_ok then 1 else 0)))

  -- One of the threads acts.
  pub data Step (c : Client 𝒫 𝒟) (ts : List Thread) (c' : Client 𝒫 𝒟) (ts' : List Thread)
      : Type 1 where
    step :
        (before after : List Thread) (t t' : Thread)
        → ts ≡ before ++ t ∷ after
        → ts' ≡ before ++ t' ∷ after
        → Acts c t c' t'
        → Step c ts c' ts'

  pub data Steps (c : Client 𝒫 𝒟) (ts : List Thread) : Client 𝒫 𝒟 → List Thread → Type 1 where
    none_yet : Steps c ts c ts
    next :
        {c' c'' : Client 𝒫 𝒟} {ts' ts'' : List Thread}
        → Steps c ts c' ts'
        → Step c' ts' c'' ts''
        → Steps c ts c'' ts''

-- The threads as `main` starts them.
abbrev pub started : ℕ → ℕ → List Thread
started k share = replicate k (idle share 0)
