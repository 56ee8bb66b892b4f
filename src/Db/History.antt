-- ===== src/Db/History.antt =====
-- Histories of the calls of core/db.h on one database, and what it is for the database to implement a
-- model: the codes and the fields that each call returns, and what it leaves, are the model's.
use ycsb_c_copy.Db.{Db, KvPair}
use ycsb_c_copy.Prelude.{ℕ, ◌≡◌, refl, ◌∙◌, List, [], ◌∷◌, some, Bytes}
use ycsb_c_copy.Run.{Run, ok, ◌>>=◌}

-- A call with its arguments; `read` asks for the listed fields, into an empty vector.
pub data Call : Type 0 where
  insert_call : (table key : Bytes) (values : List KvPair) → Call
  update_call : (table key : Bytes) (values : List KvPair) → Call
  delete_call : (table key : Bytes) → Call
  read_call : (table key : Bytes) (fields : List Bytes) → Call

-- What a call returns: its code and the vector that it filled.
abbrev pub Reply : Type 0
Reply = ℕ × List KvPair

module _ (𝒟 : Db) where
  abbrev pub perform : Call → 𝒟.State → Run (Reply × 𝒟.State)
  perform (insert_call t k vs) db = do (c, db') ← 𝒟.insert t k vs db; ok ((c, []), db')
  perform (update_call t k vs) db = do (c, db') ← 𝒟.update t k vs db; ok ((c, []), db')
  perform (delete_call t k) db = do (c, db') ← 𝒟.delete t k db; ok ((c, []), db')
  perform (read_call t k fs) db = do (c, r, db') ← 𝒟.read t k (some fs) [] db; ok ((c, r), db')

  abbrev pub perform_all : List Call → 𝒟.State → Run (List Reply × 𝒟.State)
  perform_all [] db = ok ([], db)
  perform_all (c ∷ cs) db = do
    (r, db') ← perform c db
    (rs, db'') ← perform_all cs db'
    ok (r ∷ rs, db'')

-- A model of the calls, for the states that are `IsGood` and the calls that are `IsAllowed`.
pub record Implements (𝒟 : Db) : Type 1 where
  pub Model : Type 0
  pub IsGood : 𝒟.State → Type 0
  pub IsAllowed : Call → Type 0
  pub model_of : 𝒟.State → Model
  pub reply : Call → Model → Reply
  pub outcome : Call → Model → Model
  pub step :
      (c : Call) (db : 𝒟.State)
      → IsAllowed c
      → IsGood db
      → (db' : 𝒟.State) × (perform 𝒟 c db ≡ ok (reply c (model_of db), db'))
        × IsGood db'
        × (model_of db' ≡ outcome c (model_of db))

module _ {𝒟 : Db} (model : Implements 𝒟) where
  open model use {Model, IsGood, IsAllowed, model_of, reply, outcome, step}

  abbrev pub replies : List Call → Model → List Reply
  replies [] s = []
  replies (c ∷ cs) s = reply c s ∷ replies cs (outcome c s)

  abbrev pub outcomes : List Call → Model → Model
  outcomes [] s = s
  outcomes (c ∷ cs) s = outcomes cs (outcome c s)

  abbrev pub AreAllowed : List Call → Type 0
  AreAllowed [] = Unit
  AreAllowed (c ∷ cs) = IsAllowed c × AreAllowed cs

  pub perform_all-model :
      (cs : List Call) (db : 𝒟.State)
      → AreAllowed cs
      → IsGood db
      → (db' : 𝒟.State) × (perform_all 𝒟 cs db ≡ ok (replies cs (model_of db), db'))
        × IsGood db'
        × (model_of db' ≡ outcomes cs (model_of db))
  perform_all-model [] db allowed good = (db, refl, good, refl)
  perform_all-model (c ∷ cs) db (allowed, rest) good =
      let (db', run, g, e) = step c db allowed good in
      let (db'', runs, g', e') = perform_all-model cs db' rest g in
      (db'', rw (run, runs) (rw e), g', e' ∙ rw e)
