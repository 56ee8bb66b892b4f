-- ===== src/TbbHashtable.antt =====
-- lib/tbb_rand_hashtable.h and lib/tbb_scan_hashtable.h, over a container of TBB, which is a parameter.
-- A call is one step here; TbbHashtable.Locks has the calls of several threads.
pub mod Rand
pub mod Scan
pub mod Promise
pub mod Agreement
pub mod Locks
use ycsb_c_copy.HashString.{HashString}
use ycsb_c_copy.Hashtable.{Hashtable, find, assign, erase, from}
use ycsb_c_copy.Hashtable.Order.{Reorders}
use ycsb_c_copy.Prelude.{ℕ, ◌≡◌, Bool, true, false, List, ◌∷◌, Option, none, some, length}

-- `concurrent_hash_map` or `concurrent_unordered_map`. `insert` gives the flag that it returns,
-- `set_second` writes the value behind an accessor or iterator that `find` gave, `nodes` are those
-- from `begin()` to `end()`, and `nodes_from` those from the first of `equal_range` on.
pub record ConcurrentMap (V : Type 0) : Type 1 where
  pub Map : Type 0
  pub find : HashString → Map → Option V
  pub insert : HashString → V → Map → Bool × Map
  pub set_second : HashString → V → Map → Map
  pub erase : HashString → Map → Map
  pub nodes : Map → List (HashString × V)
  pub nodes_from : HashString → Map → List (HashString × V)
  pub size : Map → ℕ

-- It holds its nodes in an order of its own, which every change may choose anew.
pub record IsMap {V : Type 0} (ℳ : ConcurrentMap V) : Type 0 where
  pub find-nodes : (s : HashString) (m : ℳ.Map) → ℳ.find s m ≡ find s (ℳ.nodes m)
  pub size-nodes : (m : ℳ.Map) → ℳ.size m ≡ length (ℳ.nodes m)
  pub from-nodes : (s : HashString) (m : ℳ.Map) → ℳ.nodes_from s m ≡ from s (ℳ.nodes m)
  pub insert-old :
      (s : HashString) (v old : V) (m : ℳ.Map) → ℳ.find s m ≡ some old → ℳ.insert s v m ≡ (false, m)
  pub insert-new :
      (s : HashString) (v : V) (m : ℳ.Map)
      → ℳ.find s m ≡ none
      → (m' : ℳ.Map) × (ℳ.insert s v m ≡ (true, m')) × Reorders ((s, v) ∷ ℳ.nodes m) (ℳ.nodes m')
  pub set-nodes :
      (s : HashString) (v : V) (m : ℳ.Map)
      → Reorders (assign s v (ℳ.nodes m)) (ℳ.nodes (ℳ.set_second s v m))
  pub erase-nodes :
      (s : HashString) (m : ℳ.Map) → Reorders (erase s (ℳ.nodes m)) (ℳ.nodes (ℳ.erase s m))
