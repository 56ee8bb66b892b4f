-- ===== src/TbbHashtable/Promise.antt =====
-- The tables on TBB keep the promise of lib/string_hashtable.h.
use ycsb_c_copy.HashString.{set_value, wrap}
use ycsb_c_copy.Hashtable
use ycsb_c_copy.Hashtable.Lookup.{Writes, view, insert-Writes, update-Writes, remove-Writes}
use ycsb_c_copy.Hashtable.Nodes.{IsDistinct}
use ycsb_c_copy.Hashtable.Order.{
  Reorders, Reorders-refl, find-Reorders, length-Reorders, AreWrapped-Reorders,
}
use ycsb_c_copy.Hashtable.Entries.{AreOnce-pairs, listed-none, listed-some}
use ycsb_c_copy.Hashtable.Wrapped.{
  AreWrapped, Leaves, insert-Leaves, update-Leaves, remove-Leaves, pairs, length-pairs,
  lookup-entries, take_all,
}
use ycsb_c_copy.Hashtable.{Hashtable}
use ycsb_c_copy.Prelude.{
  [], ◌∷◌, suc, take, ℕ, ◌+◌, ◌-◌, ◌≤◌, ◌≡◌, sym, ap, subst, ◌∙◌, List, Option, none, some,
  if◌then◌else◌, Bytes, length, equal, Option-cases, inl, inr,
}
use ycsb_c_copy.Run.{Run, ok, fault}
use ycsb_c_copy.StringHashtable.{IsTable, is_none, or_value, lookup, AreIn, AreOnce}
use ycsb_c_copy.TbbHashtable.Rand
use ycsb_c_copy.TbbHashtable.Rand.{rand_table}
use ycsb_c_copy.TbbHashtable.Scan
use ycsb_c_copy.TbbHashtable.Scan.{scan_table}
use ycsb_c_copy.TbbHashtable.{ConcurrentMap, IsMap}

module _ {V : Type 0} (ℳ : ConcurrentMap V) (is_map : IsMap ℳ) where
  open ℳ use {Map, nodes}

  abbrev pub IsGood : Map → Type 0
  IsGood m = IsDistinct (nodes m) × AreWrapped (nodes m)

  abbrev pub view_of : Map → Bytes → Option V
  view_of m = view (nodes m)

  -- What a call leaves, whatever the order of its nodes.
  moved :
      (t : Hashtable V) (k : Bytes) (o : Option V) (n : ℕ) (t' : Hashtable V) (m' : Map)
      → Writes t k o n t'
      → AreWrapped t'
      → Reorders t' (nodes m')
      → IsGood m'
        × ((q : Bytes) → view_of m' q ≡ (if equal k q then o else view t q))
        × (ℳ.size m' ≡ n)
  unfolding view Hashtable.size
  moved t k o n t' m' w wrapped r =
      let (d, same) = find-Reorders r w.distinct in
      (
        (d, AreWrapped-Reorders r wrapped),
        λ q. same (set_value q) ∙ w.reads q,
        is_map.size-nodes m' ∙ (length-Reorders r ∙ w.holds),
      )

  pub find-view : (m : Map) (k : Bytes) → ℳ.find (set_value k) m ≡ view_of m k
  unfolding view
  find-view m k = is_map.find-nodes (set_value k) m

  -- What a call on the nodes leaves is `u` in another order.
  abbrev Left : {A : Type 0} → Run (A × Hashtable V) → Hashtable V → Type 0
  Left (ok (a, t)) u = Reorders t u
  Left (fault e) u = ⊥

  pub insert-good :
      (m : Map) (k : Bytes) (v : V)
      → IsGood m
      → (m' : Map) × (ℳ.insert (set_value k) v m ≡ (is_none (view_of m k), m'))
        × IsGood m'
        × ((q : Bytes)
            → view_of m' q ≡ (if equal k q then some (or_value (view_of m k) v) else view_of m q))
        × (ℳ.size m' ≡ ℳ.size m + (if is_none (view_of m k) then 1 else 0))
  unfolding wrap Hashtable.size Hashtable.insert view
  insert-good m k v (d, wrapped) =
      let (t', run, w) = insert-Writes (nodes m) k v d in
      let wrapped' = subst Leaves run (insert-Leaves (nodes m) k v wrapped) in
      let same_size = is_map.size-nodes m in
      elim (Option-cases (view_of m k)) [
        | inl e ↦
            let (m', inserted, r) = is_map.insert-new (set_value k) v m (find-view m k ∙ e) in
            let left : Left (Hashtable.insert (nodes m) (some k) v) (nodes m') = rw (Left, e) r in
            let (g, reads, holds) =
              moved (nodes m) k _ _ t' m' w wrapped' (subst (λ x. Left x (nodes m')) run left) in
            (
              m',
              rw e inserted,
              g,
              reads,
              holds ∙ ap (λ n. n + (if is_none (view_of m k) then 1 else 0)) (sym same_size),
            )
        | inr (old, e) ↦
            let inserted = is_map.insert-old (set_value k) v old m (find-view m k ∙ e) in
            let left : Left (Hashtable.insert (nodes m) (some k) v) (nodes m) =
              rw (Left, e) (Reorders-refl (nodes m)) in
            let (g, reads, holds) =
              moved (nodes m) k _ _ t' m w wrapped' (subst (λ x. Left x (nodes m)) run left) in
            (
              m,
              rw e inserted,
              g,
              reads,
              holds ∙ ap (λ n. n + (if is_none (view_of m k) then 1 else 0)) (sym same_size),
            )
      ]

  pub update-good :
      (m : Map) (k : Bytes) (v : V)
      → IsGood m
      → (m' : Map) × (Rand.update ℳ m (some k) v ≡ ok (view_of m k, m'))
        × IsGood m'
        × ((q : Bytes)
            → view_of m' q ≡ (
                if equal k q
                then (if is_none (view_of m k) then none else some v)
                else view_of m q))
        × (ℳ.size m' ≡ ℳ.size m)
  unfolding wrap Hashtable.size Hashtable.update view Rand.update
  update-good m k v (d, wrapped) =
      let (t', run, w) = update-Writes (nodes m) k v d in
      let wrapped' = subst Leaves run (update-Leaves (nodes m) k v wrapped) in
      let old_size = sym (is_map.size-nodes m) in
      elim (Option-cases (view_of m k)) [
        | inl e ↦
            let left : Left (Hashtable.update (nodes m) (some k) v) (nodes m) =
              rw (Left, e) (Reorders-refl (nodes m)) in
            let (g, reads, holds) =
              moved (nodes m) k _ _ t' m w wrapped' (subst (λ x. Left x (nodes m)) run left) in
            (m, rw (find-view m k, e), g, reads, holds ∙ old_size)
        | inr (old, e) ↦
            let m' = ℳ.set_second (set_value k) v m in
            let left : Left (Hashtable.update (nodes m) (some k) v) (nodes m') =
              rw (Left, e) (is_map.set-nodes (set_value k) v m) in
            let (g, reads, holds) =
              moved (nodes m) k _ _ t' m' w wrapped' (subst (λ x. Left x (nodes m')) run left) in
            (m', rw (find-view m k, e), g, reads, holds ∙ old_size)
      ]

  pub remove-good :
      (m : Map) (k : Bytes)
      → IsGood m
      → (m' : Map) × (Rand.remove ℳ m (some k) ≡ ok (view_of m k, m'))
        × IsGood m'
        × ((q : Bytes) → view_of m' q ≡ (if equal k q then none else view_of m q))
        × (ℳ.size m' ≡ ℳ.size m - (if is_none (view_of m k) then 0 else 1))
  unfolding wrap Hashtable.size Hashtable.remove view Rand.remove
  remove-good m k (d, wrapped) =
      let (t', run, w) = remove-Writes (nodes m) k d in
      let wrapped' = subst Leaves run (remove-Leaves (nodes m) k wrapped) in
      let old_size =
        ap (λ n. n - (if is_none (view_of m k) then 0 else 1)) (sym (is_map.size-nodes m)) in
      elim (Option-cases (view_of m k)) [
        | inl e ↦
            let left : Left (Hashtable.remove (nodes m) (some k)) (nodes m) =
              rw (Left, e) (Reorders-refl (nodes m)) in
            let (g, reads, holds) =
              moved (nodes m) k _ _ t' m w wrapped' (subst (λ x. Left x (nodes m)) run left) in
            (m, rw (find-view m k, e), g, reads, holds ∙ old_size)
        | inr (old, e) ↦
            let m' = ℳ.erase (set_value k) m in
            let left : Left (Hashtable.remove (nodes m) (some k)) (nodes m') =
              rw (Left, e) (is_map.erase-nodes (set_value k) m) in
            let (g, reads, holds) =
              moved (nodes m) k _ _ t' m' w wrapped' (subst (λ x. Left x (nodes m')) run left) in
            (m', rw (find-view m k, e), g, reads, holds ∙ old_size)
      ]

  pub entries-good :
      (m : Map) (n : ℕ)
      → IsGood m
      → ℳ.size m ≤ n
      → (es : List (Bytes × V)) × (Rand.entries ℳ m none n ≡ ok es)
        × (length es ≡ ℳ.size m)
        × ((q : Bytes) → lookup es q ≡ view_of m q)
        × AreOnce es
  unfolding Rand.entries
  entries-good m n good h = (
    pairs (nodes m),
    ap (λ x. ok (pairs x)) (take_all n (nodes m) (subst (λ x. x ≤ n) (is_map.size-nodes m) h)),
    length-pairs (nodes m) ∙ sym (is_map.size-nodes m),
    λ q. lookup-entries (nodes m) q good.1,
    AreOnce-pairs (nodes m) good.0 good.1,
  )

  pub none-good :
      (m : Map) (k : Bytes) (n : ℕ)
      → IsGood m
      → view_of m k ≡ none
      → Rand.entries ℳ m (some k) n ≡ ok []
  unfolding Rand.entries wrap
  none-good m k n good e =
      ap (λ u. ok (pairs (take n u))) (is_map.from-nodes (set_value k) m)
      ∙ ap ok (listed-none (nodes m) k n e)

  pub some-good :
      (m : Map) (k : Bytes) (v : V) (n : ℕ)
      → IsGood m
      → view_of m k ≡ some v
      → (es : List (Bytes × V)) × (Rand.entries ℳ m (some k) (suc n) ≡ ok ((k, v) ∷ es))
        × (length es ≤ n)
        × AreIn (view_of m) es
        × AreOnce ((k, v) ∷ es)
  unfolding Rand.entries wrap
  some-good m k v n good e =
      let (es, run, bound, members, once) = listed-some (nodes m) k v n good.0 good.1 e in
      (
        es,
        ap (λ u. ok (pairs (take (suc n) u))) (is_map.from-nodes (set_value k) m) ∙ ap ok run,
        bound,
        members,
        once,
      )

  unfoldable pub rand_table-IsTable : IsTable (rand_table ℳ)
  unfolding Rand.get Rand.insert Rand.size wrap
  rand_table-IsTable = record {
    IsGood = IsGood;
    view = view_of;
    get-view = λ m k good. ap ok (find-view m k);
    insert-view = λ m k v good.
        let (m', inserted, g, reads, holds) = insert-good m k v good in
        (m', ap ok inserted, g, reads, holds);
    update-view = update-good;
    remove-view = remove-good;
    entries-view = entries-good;
    entries-none = none-good;
    entries-some = some-good;
  }

  unfoldable pub scan_table-IsTable : IsTable (scan_table ℳ)
  unfolding Rand.update Rand.remove Rand.entries Scan.get Scan.insert Scan.size Scan.update
      Scan.remove Scan.entries wrap
  scan_table-IsTable = record {
    IsGood = IsGood;
    view = view_of;
    get-view = λ m k good. ap ok (find-view m k);
    insert-view = λ m k v good.
        let (m', inserted, g, reads, holds) = insert-good m k v good in
        (m', ap ok inserted, g, reads, holds);
    update-view = update-good;
    remove-view = remove-good;
    entries-view = entries-good;
    entries-none = none-good;
    entries-some = some-good;
  }
