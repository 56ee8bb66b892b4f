-- ===== src/HashtableDb/Instances.antt =====
-- The tables that the three databases choose keep the promise of lib/string_hashtable.h.
use mathlib.Core.Path.{fun_ext}
use ycsb_c_copy.Hashtable.Lookup.{view}
use ycsb_c_copy.Hashtable.Nodes.{IsDistinct}
use ycsb_c_copy.Hashtable.Table.{stl_table-IsTable}
use ycsb_c_copy.Hashtable.Wrapped.{AreWrapped}
use ycsb_c_copy.Hashtable.{Hashtable, find}
use ycsb_c_copy.HashtableDb.Fields.{AreTables, empty}
use ycsb_c_copy.HashtableDb.Interface.{lock_stl_tables, tbb_rand_tables, tbb_scan_tables}
use ycsb_c_copy.Prelude.{◌≡◌, refl, sym, ap, subst, ◌∙◌, [], Bytes}
use ycsb_c_copy.TbbHashtable.Promise.{rand_table-IsTable, scan_table-IsTable}
use ycsb_c_copy.TbbHashtable.{ConcurrentMap, IsMap}

pub stl_empty : view {V = Bytes} [] ≡ empty
unfolding view find
stl_empty = fun_ext λ q. refl

abbrev pub lock_stl_tables-AreTables : AreTables lock_stl_tables
lock_stl_tables-AreTables = record {
  fields_table = stl_table-IsTable;
  keys_table = stl_table-IsTable;
  new_field_hashtable-IsGood = (tt, tt);
  new_field_hashtable-empty = stl_empty;
}

module _ (ℱ : ConcurrentMap Bytes) (𝒦 : ConcurrentMap ℱ.Map) (new : ℱ.Map) (is_f : IsMap ℱ)
    (is_k : IsMap 𝒦) (is_new : ℱ.nodes new ≡ []) where
  pub new-IsGood : IsDistinct (ℱ.nodes new) × AreWrapped (ℱ.nodes new)
  new-IsGood = subst (λ (t : Hashtable Bytes). IsDistinct t × AreWrapped t) (sym is_new) (tt, tt)

  pub new-empty : view (ℱ.nodes new) ≡ empty
  new-empty = ap view is_new ∙ stl_empty

  unfoldable pub tbb_rand_tables-AreTables : AreTables (tbb_rand_tables ℱ 𝒦 new)
  unfolding rand_table-IsTable
  tbb_rand_tables-AreTables = record {
    fields_table = rand_table-IsTable ℱ is_f;
    keys_table = rand_table-IsTable 𝒦 is_k;
    new_field_hashtable-IsGood = new-IsGood;
    new_field_hashtable-empty = new-empty;
  }

  unfoldable pub tbb_scan_tables-AreTables : AreTables (tbb_scan_tables ℱ 𝒦 new)
  unfolding scan_table-IsTable
  tbb_scan_tables-AreTables = record {
    fields_table = scan_table-IsTable ℱ is_f;
    keys_table = scan_table-IsTable 𝒦 is_k;
    new_field_hashtable-IsGood = new-IsGood;
    new_field_hashtable-empty = new-empty;
  }
