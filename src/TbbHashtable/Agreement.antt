-- ===== src/TbbHashtable/Agreement.antt =====
-- The three hash tables answer alike.
use mathlib.Core.Path.{fun_ext, Σ_path}
use ycsb_c_copy.Hashtable
use ycsb_c_copy.Hashtable.Nodes.{IsDistinct}
use ycsb_c_copy.Hashtable.Lookup.{view}
use ycsb_c_copy.Hashtable.Table.{stl_table, stl_table-IsTable}
use ycsb_c_copy.Hashtable.Wrapped.{AreWrapped}
use ycsb_c_copy.Hashtable.{Hashtable}
use ycsb_c_copy.Prelude.{◌≡◌, sym, ap, ◌∙◌, subst, List, [], none, length}
use ycsb_c_copy.Run.{ok}
use ycsb_c_copy.StringHashtable.Histories.{
  Call, Answer, perform_all, answers, map_of, perform_all-answers,
}
use ycsb_c_copy.TbbHashtable.Promise.{IsGood, rand_table-IsTable, scan_table-IsTable}
use ycsb_c_copy.TbbHashtable.Rand
use ycsb_c_copy.TbbHashtable.Scan
use ycsb_c_copy.TbbHashtable.Rand.{rand_table}
use ycsb_c_copy.TbbHashtable.Scan.{scan_table}
use ycsb_c_copy.TbbHashtable.{ConcurrentMap, IsMap}

module _ {V : Type 0} (ℳ : ConcurrentMap V) (is_map : IsMap ℳ) (m : ℳ.Map)
    (empty : ℳ.nodes m ≡ []) where
  empty-IsGood : IsGood ℳ is_map m
  empty-IsGood = subst (λ (t : Hashtable V). IsDistinct t × AreWrapped t) (sym empty) (tt, tt)

  empty_map : map_of (rand_table ℳ) (rand_table-IsTable ℳ is_map) m ≡ ((λ q. none), 0)
  unfolding rand_table-IsTable view Hashtable.find Rand.size
  empty_map = Σ_path (fun_ext λ q. ap (λ t. view t q) empty) (is_map.size-nodes m ∙ ap length empty)

  -- Whatever order the container of TBB keeps its nodes in, `StlHashtable`, `TbbRandHashtable` and
  -- `TbbScanHashtable`, each on an empty container, give the same answers to any history of `Get`,
  -- `Insert`, `Update`, `Remove` and `Size`, made one after the other, and no call faults.
  pub tables-agree :
      (cs : List (Call V))
      → (given : List (Answer V)) × (t : Hashtable V) × (r : ℳ.Map) × (s : ℳ.Map) × (perform_all
            (stl_table V)
            cs
            []
          ≡ ok (given, t))
        × (perform_all (rand_table ℳ) cs m ≡ ok (given, r))
        × (perform_all (scan_table ℳ) cs m ≡ ok (given, s))
  unfolding rand_table-IsTable scan_table-IsTable Hashtable.size view Hashtable.find Scan.size
  tables-agree cs =
      let rand = rand_table-IsTable ℳ is_map in
      let scan = scan_table-IsTable ℳ is_map in
      let (t, run_t, g, e) = perform_all-answers (stl_table V) stl_table-IsTable cs [] (tt, tt) in
      let (r, run_r, g', e') = perform_all-answers (rand_table ℳ) rand cs m empty-IsGood in
      let (s, run_s, g'', e'') = perform_all-answers (scan_table ℳ) scan cs m empty-IsGood in
      (
        answers cs ((λ q. none), 0),
        t,
        r,
        s,
        run_t,
        run_r ∙ ap (λ x. ok (answers cs x, r)) empty_map,
        run_s ∙ ap (λ x. ok (answers cs x, s)) empty_map,
      )
