-- ===== src/StringHashtable/Histories.antt =====
-- Histories of calls on one table: tables that keep their promise answer alike.
use mathlib.Core.Path.{fun_ext, Σ_path}
use ycsb_c_copy.Prelude.{
  ℕ, ◌+◌, ◌-◌, ◌≡◌, refl, ◌∙◌, Bool, List, [], ◌∷◌, Option, none, some, if◌then◌else◌, Bytes, equal,
}
use ycsb_c_copy.Run.{Run, ok, ◌>>=◌}
use ycsb_c_copy.StringHashtable.{StringHashtable, IsTable, is_none, or_value}

module _ (V : Type 0) where
  pub data Call : Type 0 where
    get_call : Bytes → Call
    insert_call : Bytes → V → Call
    update_call : Bytes → V → Call
    remove_call : Bytes → Call
    size_call : Call

  pub data Answer : Type 0 where
    value : Option V → Answer
    done : Bool → Answer
    count : ℕ → Answer

  -- A map with the number of its keys.
  abbrev pub Map : Type 0
  Map = (Bytes → Option V) × ℕ

module _ {V : Type 0} where
  abbrev pub perform : (T : StringHashtable V) → Call V → T.State → Run (Answer V × T.State)
  perform T (get_call k) t = do v ← T.get t (some k); ok (value v, t)
  perform T (insert_call k v) t = do (b, t') ← T.insert t (some k) v; ok (done b, t')
  perform T (update_call k v) t = do (old, t') ← T.update t (some k) v; ok (value old, t')
  perform T (remove_call k) t = do (old, t') ← T.remove t (some k); ok (value old, t')
  perform T size_call t = ok (count (T.size t), t)

  abbrev pub perform_all :
      (T : StringHashtable V) → List (Call V) → T.State → Run (List (Answer V) × T.State)
  perform_all T [] t = ok ([], t)
  perform_all T (c ∷ cs) t = do
    (a, t') ← perform T c t
    (given, t'') ← perform_all T cs t'
    ok (a ∷ given, t'')

  abbrev pub answer : Call V → Map V → Answer V
  answer (get_call k) m = value (m.0 k)
  answer (insert_call k v) m = done (is_none (m.0 k))
  answer (update_call k v) m = value (m.0 k)
  answer (remove_call k) m = value (m.0 k)
  answer size_call m = count m.1

  abbrev pub set : (Bytes → Option V) → Bytes → Option V → Bytes → Option V
  set f k o q = if equal k q then o else f q

  abbrev pub outcome : Call V → Map V → Map V
  outcome (insert_call k v) m =
      (set m.0 k (some (or_value (m.0 k) v)), m.1 + (if is_none (m.0 k) then 1 else 0))
  outcome (update_call k v) m = (set m.0 k (if is_none (m.0 k) then none else some v), m.1)
  outcome (remove_call k) m = (set m.0 k none, m.1 - (if is_none (m.0 k) then 0 else 1))
  outcome _ m = m

  abbrev pub answers : List (Call V) → Map V → List (Answer V)
  answers [] m = []
  answers (c ∷ cs) m = answer c m ∷ answers cs (outcome c m)

  abbrev pub outcomes : List (Call V) → Map V → Map V
  outcomes [] m = m
  outcomes (c ∷ cs) m = outcomes cs (outcome c m)

  module _ (T : StringHashtable V) (table : IsTable T) where
    abbrev pub map_of : T.State → Map V
    map_of t = (table.view t, T.size t)

    pub perform-answer :
        (c : Call V) (t : T.State)
        → table.IsGood t
        → (t' : T.State) × (perform T c t ≡ ok (answer c (map_of t), t'))
          × table.IsGood t'
          × (map_of t' ≡ outcome c (map_of t))
    perform-answer (get_call k) t good = (t, rw (table.get-view t k good), good, refl)
    perform-answer (insert_call k v) t good =
        let (t', run, g, reads, holds) = table.insert-view t k v good in
        (t', rw run, g, Σ_path (fun_ext reads) holds)
    perform-answer (update_call k v) t good =
        let (t', run, g, reads, holds) = table.update-view t k v good in
        (t', rw run, g, Σ_path (fun_ext reads) holds)
    perform-answer (remove_call k) t good =
        let (t', run, g, reads, holds) = table.remove-view t k good in
        (t', rw run, g, Σ_path (fun_ext reads) holds)
    perform-answer size_call t good = (t, refl, good, refl)

    pub perform_all-answers :
        (cs : List (Call V)) (t : T.State)
        → table.IsGood t
        → (t' : T.State) × (perform_all T cs t ≡ ok (answers cs (map_of t), t'))
          × table.IsGood t'
          × (map_of t' ≡ outcomes cs (map_of t))
    perform_all-answers [] t good = (t, refl, good, refl)
    perform_all-answers (c ∷ cs) t good =
        let (t', run, g, e) = perform-answer c t good in
        let (t'', runs, g', e') = perform_all-answers cs t' g in
        (t'', rw (run, runs) (rw e), g', e' ∙ rw e)
