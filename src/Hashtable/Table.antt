-- ===== src/Hashtable/Table.antt =====
-- `StlHashtable`, and `LockStlHashtable` with its lock on each call, behind lib/string_hashtable.h.
use ycsb_c_copy.HashString.{set_value, wrap}
use ycsb_c_copy.Hashtable.Lookup.{view, get-view, insert-Writes, update-Writes, remove-Writes}
use ycsb_c_copy.Hashtable.Nodes.{IsDistinct}
use ycsb_c_copy.Hashtable.{Hashtable, get, insert, update, remove, entries, size}
use ycsb_c_copy.Prelude.{ℕ, suc, ◌≤◌, ◌≡◌, refl, ap, subst, ◌∙◌, List, none, some, Bytes, length}
use ycsb_c_copy.Run.{ok}
use ycsb_c_copy.StringHashtable.{StringHashtable, IsTable, lookup, AreOnce}
use ycsb_c_copy.Hashtable.Wrapped.{
  AreWrapped, Leaves, insert-Leaves, update-Leaves, remove-Leaves, lookup-entries, pairs,
  length-pairs, take_all,
}
use ycsb_c_copy.Hashtable.Entries.{AreOnce-pairs, listed, listed-none, listed-some}

abbrev pub stl_table : (V : Type 0) → StringHashtable V
stl_table V = record {
  State = Hashtable V;
  get = get;
  insert = insert;
  update = update;
  remove = remove;
  entries = entries;
  size = size;
}

module _ {V : Type 0} where
  abbrev pub IsGood : Hashtable V → Type 0
  IsGood t = IsDistinct t × AreWrapped t

  pub entries-listed :
      (t : Hashtable V) (k : Bytes) (n : ℕ) → entries t (some k) n ≡ ok (listed n (set_value k) t)
  unfolding entries wrap
  entries-listed t k n = refl

  pub entries-view :
      (t : Hashtable V) (n : ℕ)
      → IsGood t
      → size t ≤ n
      → (es : List (Bytes × V)) × (entries t none n ≡ ok es)
        × (length es ≡ size t)
        × ((q : Bytes) → lookup es q ≡ view t q)
        × AreOnce es
  unfolding size entries
  entries-view t n good h = (
    pairs t,
    ap (λ x. ok (pairs x)) (take_all n t h),
    length-pairs t,
    λ q. lookup-entries t q good.1,
    AreOnce-pairs t good.0 good.1,
  )

  abbrev pub stl_table-IsTable : IsTable (stl_table V)
  stl_table-IsTable = record {
    IsGood = IsGood;
    view = view;
    get-view = λ t k good. get-view t k;
    insert-view = λ t k v good.
        let (t', run, w) = insert-Writes t k v good.0 in
        (t', run, (w.distinct, subst Leaves run (insert-Leaves t k v good.1)), w.reads, w.holds);
    update-view = λ t k v good.
        let (t', run, w) = update-Writes t k v good.0 in
        (t', run, (w.distinct, subst Leaves run (update-Leaves t k v good.1)), w.reads, w.holds);
    remove-view = λ t k good.
        let (t', run, w) = remove-Writes t k good.0 in
        (t', run, (w.distinct, subst Leaves run (remove-Leaves t k good.1)), w.reads, w.holds);
    entries-view = λ t n good h. entries-view t n good h;
    entries-none = λ t k n good e. entries-listed t k n ∙ ap ok (listed-none t k n e);
    entries-some = λ t k v n good e.
        let (es, run, bound, members, once) = listed-some t k v n good.0 good.1 e in
        (es, entries-listed t k (suc n) ∙ ap ok run, bound, members, once);
  }
