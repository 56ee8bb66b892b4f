-- ===== src/Tests/Tables.antt =====
-- The hash table and the database on it.
use ycsb_c_copy.Hashtable.Lookup.{view}
use mathlib.Core.Quot.{Quot}
use ycsb_c_copy.HashString.{set_value}
use ycsb_c_copy.Hashtable.Order.{swap}
use ycsb_c_copy.Hashtable.Unordered
use ycsb_c_copy.Hashtable.Unordered.{UnorderedTable, SameCall, view-Reorders}
use ycsb_c_copy.Hashtable.Table.{IsGood}
use ycsb_c_copy.Hashtable.{Hashtable, find, insert, update, remove}
use ycsb_c_copy.Db.History.{
  Call, insert_call, update_call, delete_call, read_call, perform_all, replies, outcomes,
}
use ycsb_c_copy.HashtableDb.History.{store_model, perform_all-refines}
use ycsb_c_copy.HashtableDb.Interface.{lock_stl_db, lock_stl_tables}
use ycsb_c_copy.HashtableDb.Instances.{lock_stl_tables-AreTables}
use ycsb_c_copy.HashtableDb.Refinement.{IsValid, contents}
use ycsb_c_copy.HashtableDb.{KeyHashtable}
use ycsb_c_copy.Prelude.{◌≡◌, ℕ, ap, refl, some, List, [], ◌∷◌, codes}
use ycsb_c_copy.Run.{ok}

pub empty-IsValid : IsValid lock_stl_tables lock_stl_tables-AreTables []
unfolding view find
empty-IsValid = record { good = (tt, tt); fields = λ k t e. cc }

abbrev history : List Call
history =
    insert_call (codes "t") (codes "user1") ((codes "field0", codes "x") ∷ [])
    ∷ insert_call (codes "t") (codes "user1") ((codes "field0", codes "y") ∷ [])
    ∷ update_call (codes "t") (codes "user1") ((codes "field0", codes "z") ∷ [])
    ∷ read_call (codes "t") (codes "user1") (codes "field0" ∷ [])
    ∷ delete_call (codes "t") (codes "user1")
    ∷ read_call (codes "t") (codes "user1") (codes "field0" ∷ [])
    ∷ []

perform_all-refines_example :
    (db' : KeyHashtable lock_stl_tables) × (perform_all lock_stl_db history []
      ≡ ok (
        replies
            (store_model lock_stl_tables lock_stl_tables-AreTables)
            history
            (contents lock_stl_tables lock_stl_tables-AreTables []),
        db',
      ))
    × IsValid lock_stl_tables lock_stl_tables-AreTables db'
    × (contents lock_stl_tables lock_stl_tables-AreTables db'
        ≡ outcomes
            (store_model lock_stl_tables lock_stl_tables-AreTables)
            history
            (contents lock_stl_tables lock_stl_tables-AreTables []))
perform_all-refines_example =
    perform_all-refines lock_stl_tables lock_stl_tables-AreTables history [] empty-IsValid

-- The same two nodes in either order.
abbrev ab : Hashtable ℕ
ab = (set_value (codes "a"), 1) ∷ (set_value (codes "b"), 2) ∷ []

abbrev ba : Hashtable ℕ
ba = (set_value (codes "b"), 2) ∷ (set_value (codes "a"), 1) ∷ []

ab-IsGood : IsGood ab
unfolding find ycsb_c_copy.HashString.◌=s=◌ set_value
ab-IsGood = ((refl, (refl, tt)), (refl, (refl, tt)))

ba-IsGood : IsGood ba
unfolding find ycsb_c_copy.HashString.◌=s=◌ set_value
ba-IsGood = ((refl, (refl, tt)), (refl, (refl, tt)))

alike_tables_example :
    ◌≡◌ {A = UnorderedTable ℕ} (Quot.mk (ab, ab-IsGood)) (Quot.mk (ba, ba-IsGood))
    × SameCall (insert ab (some (codes "c")) 3) (insert ba (some (codes "c")) 3)
    × SameCall (update ab (some (codes "c")) 3) (update ba (some (codes "c")) 3)
    × SameCall (remove ab (some (codes "c"))) (remove ba (some (codes "c")))
alike_tables_example =
    Unordered.alike_tables (ab, ab-IsGood) (ba, ba-IsGood) (codes "c") 3
      (λ q. ap (λ m. m q) (view-Reorders (ab, ab-IsGood) (ba, ba-IsGood) (swap _ _ [])))
