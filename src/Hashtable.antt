-- ===== src/Hashtable.antt =====
-- lib/stl_hashtable.h: `StlHashtable` over `std::unordered_map`, which is the list of its nodes in the
-- order of iteration. That order is the library's choice: here a new node comes first. Values are
-- pointers, and `none` is the null pointer that stands for "not found".
pub mod Nodes
pub mod Lookup
pub mod Wrapped
pub mod Entries
pub mod Table
pub mod Order
pub mod Unordered
use ycsb_c_copy.HashString.{HashString, wrap, ◌=s=◌}
use ycsb_c_copy.Prelude.{
  ℕ, Bool, true, false, List, [], ◌∷◌, Option, none, some, if◌then◌else◌, Bytes, length, take, map,
}
use ycsb_c_copy.Run.{Run, ok, ◌>>=◌}

abbrev pub Hashtable : Type 0 → Type 0
Hashtable V = List (HashString × V)

module _ {V : Type 0} where
  -- `table_.find(s)`, with the value that the iterator names.
  unfoldable pub find : HashString → Hashtable V → Option V
  find s [] = none
  find s ((k, v) ∷ t) = if k =s= s then some v else find s t

  -- `pos->second = v`
  unfoldable pub assign : HashString → V → Hashtable V → Hashtable V
  assign s v [] = []
  assign s v ((k, w) ∷ t) = if k =s= s then (k, v) ∷ t else (k, w) ∷ assign s v t

  -- `table_.erase(pos)`
  unfoldable pub erase : HashString → Hashtable V → Hashtable V
  erase s [] = []
  erase s ((k, w) ∷ t) = if k =s= s then t else (k, w) ∷ erase s t

  -- The nodes from `table_.find(s)` to the end.
  unfoldable pub from : HashString → Hashtable V → Hashtable V
  from s [] = []
  from s ((k, w) ∷ t) = if k =s= s then (k, w) ∷ t else from s t

  unfoldable pub get : Hashtable V → Option Bytes → Run (Option V)
  unfolding find
  get t key = do s ← wrap key; ok (find s t)

  -- A null key is refused; `unordered_map::insert` leaves a node with an equal key alone.
  unfoldable pub insert : Hashtable V → Option Bytes → V → Run (Bool × Hashtable V)
  unfolding find
  insert t none value = ok (false, t)
  insert t (some key) value = do
    skey ← wrap (some key)
    elim (find skey t) [ some v ↦ ok (false, t) | none ↦ ok (true, (skey, value) ∷ t) ]

  unfoldable pub update : Hashtable V → Option Bytes → V → Run (Option V × Hashtable V)
  unfolding find assign
  update t key value = do
    s ← wrap key
    elim (find s t) [ none ↦ ok (none, t) | some old ↦ ok (some old, assign s value t) ]

  unfoldable pub remove : Hashtable V → Option Bytes → Run (Option V × Hashtable V)
  unfolding find erase
  remove t key = do
    s ← wrap key
    elim (find s t) [ none ↦ ok (none, t) | some old ↦ ok (some old, erase s t) ]

  -- `Entries(key, n)`: at most `n` nodes, from the one with the key on, or from the first.
  unfoldable pub entries : Hashtable V → Option Bytes → ℕ → Run (List (Bytes × V))
  unfolding from
  entries t none n = ok (map (λ e. (e.0.value, e.1)) (take n t))
  entries t (some key) n = do
    s ← wrap (some key)
    ok (map (λ e. (e.0.value, e.1)) (take n (from s t)))

  unfoldable pub size : Hashtable V → ℕ
  size t = length t
