-- ===== src/Tests/Tbb.antt =====
-- A container that keeps its nodes in the order of their insertion, and threads on a table of TBB.
use ycsb_c_copy.Db.History
use ycsb_c_copy.Db.History.{Reply, delete_call, read_call}
use ycsb_c_copy.HashtableDb.Agreement.{databases-agree}
use ycsb_c_copy.HashtableDb.Interface.{lock_stl_db, tbb_rand_db, tbb_scan_db}
use ycsb_c_copy.HashString.{HashString}
use ycsb_c_copy.Hashtable.Order.{Reorders, Reorders-refl, cons, swap, trans}
use ycsb_c_copy.Hashtable.{Hashtable, find, assign, erase, from}
use ycsb_c_copy.Prelude.{
  Bytes, ◌≡◌, refl, Bool, true, false, List, [], ◌∷◌, ◌++◌, none, some, codes, length,
}
use ycsb_c_copy.Run.{ok}
use ycsb_c_copy.TbbHashtable.Locks.Races.{IsLocked, Steps-safe, rand_races}
use ycsb_c_copy.TbbHashtable.Locks.{
  Threads, Steps, none_yet, after, start, rand, scan, enters, get, IsRace, enter, shared,
}
use ycsb_c_copy.TbbHashtable.{ConcurrentMap, IsMap}

module _ {V : Type 0} where
  add_node : HashString → V → Hashtable V → Bool × Hashtable V
  add_node s v t = elim (find s t) [ some w ↦ (false, t) | none ↦ (true, t ++ (s, v) ∷ []) ]

  Reorders-last : (e : HashString × V) (t : Hashtable V) → Reorders (e ∷ t) (t ++ e ∷ [])
  Reorders-last e [] = Reorders-refl (e ∷ [])
  Reorders-last e (f ∷ t) = trans (swap e f t) (cons f (Reorders-last e t))

  add_node_old :
      (s : HashString) (v old : V) (t : Hashtable V)
      → find s t ≡ some old
      → add_node s v t ≡ (false, t)
  unfolding add_node
  add_node_old s v old t e = rw (add_node, e)

  add_node_new :
      (s : HashString) (v : V) (t : Hashtable V)
      → find s t ≡ none
      → add_node s v t ≡ (true, t ++ (s, v) ∷ [])
  unfolding add_node
  add_node_new s v t e = rw (add_node, e)

abbrev queue : (V : Type 0) → ConcurrentMap V
queue V = record {
  Map = Hashtable V;
  find = find;
  insert = add_node;
  set_second = assign;
  erase = erase;
  nodes = λ t. t;
  nodes_from = from;
  size = length;
}

queue-IsMap : (V : Type 0) → IsMap (queue V)
queue-IsMap V = record {
  find-nodes = λ s m. refl;
  size-nodes = λ m. refl;
  from-nodes = λ s m. refl;
  insert-old = add_node_old;
  insert-new = λ s v m e. (m ++ (s, v) ∷ [], add_node_new s v m e, Reorders-last (s, v) m);
  set-nodes = λ s v m. Reorders-refl (assign s v m);
  erase-nodes = λ s m. Reorders-refl (erase s m);
}

abbrev one_reader : Threads
one_reader = enter shared start

Steps-safe_example : IsLocked rand one_reader × IsLocked scan start × (¬ IsRace start)
Steps-safe_example =
    Steps-safe one_reader start (after none_yet (enters start get tt refl)) none_yet

rand_races_example : (u : Threads) × Steps rand one_reader u × IsRace u
rand_races_example = rand_races one_reader refl refl refl

abbrev db_calls : List History.Call
db_calls =
    History.insert_call (codes "t") (codes "user1") ((codes "field0", codes "x") ∷ [])
    ∷ History.insert_call (codes "t") (codes "user2") ((codes "field0", codes "y") ∷ [])
    ∷ read_call (codes "t") (codes "user1") (codes "field0" ∷ [])
    ∷ delete_call (codes "t") (codes "user1")
    ∷ []

databases-agree_example :
    (given : List Reply) × (s r t : Hashtable (Hashtable Bytes)) × (History.perform_all lock_stl_db
        db_calls []
      ≡ ok (given, s))
    × (History.perform_all (tbb_rand_db (queue Bytes) (queue (Hashtable Bytes)) []) db_calls []
        ≡ ok (given, r))
    × (History.perform_all (tbb_scan_db (queue Bytes) (queue (Hashtable Bytes)) []) db_calls []
        ≡ ok (given, t))
databases-agree_example =
    databases-agree (queue Bytes) (queue (Hashtable Bytes)) [] [] (queue-IsMap Bytes)
      (queue-IsMap (Hashtable Bytes)) refl refl db_calls
