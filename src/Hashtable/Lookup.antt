-- ===== src/Hashtable/Lookup.antt =====
-- What each operation does to every lookup, and that keys stay distinct.
use ycsb_c_copy.HashString.{set_value, wrap}
use ycsb_c_copy.HashString.Sdbm.{wrapped_lem}
use ycsb_c_copy.Hashtable.{Hashtable, find, assign, erase, get, insert, update, remove, size}
use ycsb_c_copy.Prelude.{
  ℕ, ◌+◌, ◌≡◌, refl, ◌∷◌, Option, none, some, if◌then◌else◌, Bytes, arith, inl, inr, ◌-◌, equal,
  Option-cases,
}
use ycsb_c_copy.StringHashtable.{is_none, or_value, set_self}
use ycsb_c_copy.Run.{ok}
use ycsb_c_copy.Hashtable.Nodes.{
  IsDistinct, find-assign, find-erase, assign-IsDistinct, erase-IsDistinct, length-assign,
  length-erase,
}

module _ {V : Type 0} where
  -- What the table maps a text to.
  unfoldable pub view : Hashtable V → Bytes → Option V
  view t k = find (set_value k) t

  -- `t'` has distinct keys, maps `k` to `v` and every other text as `t` does, and has `grown` nodes
  -- where `t` had `before`.
  pub record Writes (t : Hashtable V) (k : Bytes) (v : Option V) (n : ℕ) (t' : Hashtable V)
      : Type 0 where
    pub distinct : IsDistinct t'
    pub reads : (q : Bytes) → view t' q ≡ (if equal k q then v else view t q)
    pub holds : size t' ≡ n

  -- A write through the pointer that the table holds under `k`.
  pub assign-view :
      (t : Hashtable V) (k : Bytes) (v old : V)
      → view t k ≡ some old
      → IsDistinct t
      → IsDistinct (assign (set_value k) v t)
        × ((q : Bytes)
            → view (assign (set_value k) v t) q ≡ (if equal k q then some v else view t q))
  unfolding view
  assign-view t k v old e h = (
    assign-IsDistinct (set_value k) v t h,
    λ q. ground (arith, find-assign (set_value k) (set_value q) v t old, (wrapped_lem k q).1),
  )

  pub insert-Writes :
      (t : Hashtable V) (k : Bytes) (v : V)
      → IsDistinct t
      → (t' : Hashtable V) × (insert t (some k) v ≡ ok (is_none (view t k), t'))
        × Writes t k
            (some (or_value (view t k) v))
            (size t + (if is_none (view t k) then 1 else 0))
            t'
  unfolding insert wrap view size find
  insert-Writes t k v h = elim (Option-cases (find (set_value k) t)) [
    | inl e ↦ (
      (set_value k, v) ∷ t,
      ground arith,
      record {
        distinct = (e, h);
        reads = λ q. ground (arith, (wrapped_lem k q).1);
        holds = ground arith;
      },
    )
    | inr (old, e) ↦ (
      t,
      ground arith,
      record {
        distinct = h;
        reads = set_self (view t) k (some (or_value (view t k) v)) (ground arith);
        holds = ground arith;
      },
    )
  ]

  pub update-Writes :
      (t : Hashtable V) (k : Bytes) (v : V)
      → IsDistinct t
      → (t' : Hashtable V) × (update t (some k) v ≡ ok (view t k, t'))
        × Writes t k (if is_none (view t k) then none else some v) (size t) t'
  unfolding update wrap view size
  update-Writes t k v h = elim (Option-cases (find (set_value k) t)) [
    | inl e ↦ (
      t,
      ground arith,
      record { distinct = h; reads = set_self (view t) k _ (ground arith); holds = refl },
    )
    | inr (old, e) ↦ (
      assign (set_value k) v t,
      ground arith,
      record {
        distinct = assign-IsDistinct (set_value k) v t h;
        reads = λ q.
            ground (arith, find-assign (set_value k) (set_value q) v t old, (wrapped_lem k q).1);
        holds = length-assign (set_value k) v t;
      },
    )
  ]

  pub remove-Writes :
      (t : Hashtable V) (k : Bytes)
      → IsDistinct t
      → (t' : Hashtable V) × (remove t (some k) ≡ ok (view t k, t'))
        × Writes t k none (size t - (if is_none (view t k) then 0 else 1)) t'
  unfolding remove wrap view size
  remove-Writes t k h = elim (Option-cases (find (set_value k) t)) [
    | inl e ↦ (
      t,
      ground arith,
      record { distinct = h; reads = set_self (view t) k none e; holds = ground arith },
    )
    | inr (old, e) ↦ (
      erase (set_value k) t,
      ground arith,
      record {
        distinct = erase-IsDistinct (set_value k) t h;
        reads =
            λ q. ground (arith, find-erase (set_value k) (set_value q) t h, (wrapped_lem k q).1);
        holds = ground (arith, length-erase (set_value k) t old e);
      },
    )
  ]

  pub get-view : (t : Hashtable V) (k : Bytes) → get t (some k) ≡ ok (view t k)
  unfolding get view wrap
  get-view t k = refl

  -- On a table with distinct keys and for a key `k` that is no null pointer: `Get` returns what the
  -- table maps `k` to; `Insert` maps an absent `k` to the value and returns true, and leaves a table
  -- that has `k` as it is and returns false; `Update` gives a present `k` the new value, `Remove` takes
  -- it out, and both return what it had, and return null and change nothing if `k` is absent. All keep
  -- the keys distinct and every other key, and count the nodes right.
  pub operations_lem :
      (t : Hashtable V) (k : Bytes) (v : V)
      → IsDistinct t
      → (get t (some k) ≡ ok (view t k))
        × ((t' : Hashtable V) × (insert t (some k) v ≡ ok (is_none (view t k), t'))
            × Writes t k
                (some (or_value (view t k) v))
                (size t + (if is_none (view t k) then 1 else 0))
                t')
        × ((t' : Hashtable V) × (update t (some k) v ≡ ok (view t k, t'))
            × Writes t k (if is_none (view t k) then none else some v) (size t) t')
        × ((t' : Hashtable V) × (remove t (some k) ≡ ok (view t k, t'))
            × Writes t k none (size t - (if is_none (view t k) then 0 else 1)) t')
  operations_lem t k v h =
      (get-view t k, insert-Writes t k v h, update-Writes t k v h, remove-Writes t k h)
