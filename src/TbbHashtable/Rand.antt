-- ===== src/TbbHashtable/Rand.antt =====
-- lib/tbb_rand_hashtable.h: `TbbRandHashtable`.
use ycsb_c_copy.HashString.{wrap}
use ycsb_c_copy.Prelude.{ℕ, Bool, false, List, map, Option, none, some, Bytes, take}
use ycsb_c_copy.Run.{Run, ok, ◌>>=◌}
use ycsb_c_copy.StringHashtable.{StringHashtable}
use ycsb_c_copy.TbbHashtable.{ConcurrentMap}

module _ {V : Type 0} (ℳ : ConcurrentMap V) where
  open ℳ use {Map}

  unfoldable pub get : Map → Option Bytes → Run (Option V)
  get t key = do s ← wrap key; ok (ℳ.find s t)

  unfoldable pub insert : Map → Option Bytes → V → Run (Bool × Map)
  insert t none value = ok (false, t)
  insert t (some key) value = do skey ← wrap (some key); ok (ℳ.insert skey value t)

  unfoldable pub update : Map → Option Bytes → V → Run (Option V × Map)
  update t key value = do
    s ← wrap key
    elim (ℳ.find s t) [ none ↦ ok (none, t) | some old ↦ ok (some old, ℳ.set_second s value t) ]

  unfoldable pub remove : Map → Option Bytes → Run (Option V × Map)
  remove t key = do
    s ← wrap key
    elim (ℳ.find s t) [ none ↦ ok (none, t) | some old ↦ ok (some old, ℳ.erase s t) ]

  unfoldable pub entries : Map → Option Bytes → ℕ → Run (List (Bytes × V))
  entries t none n = ok (map (λ e. (e.0.value, e.1)) (take n (ℳ.nodes t)))
  entries t (some key) n = do
    s ← wrap (some key)
    ok (map (λ e. (e.0.value, e.1)) (take n (ℳ.nodes_from s t)))

  unfoldable pub size : Map → ℕ
  size t = ℳ.size t

  abbrev pub rand_table : StringHashtable V
  rand_table = record {
    State = Map;
    get = get;
    insert = insert;
    update = update;
    remove = remove;
    entries = entries;
    size = size;
  }
