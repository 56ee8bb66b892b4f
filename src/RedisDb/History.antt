-- ===== src/RedisDb/History.antt =====
-- Whole histories of calls on one `RedisDB`, against the hashes that its server holds, as they are while no
-- reply fails.
use ycsb_c_copy.Db.{k_ok}
use ycsb_c_copy.Db.History.{
  Call, insert_call, update_call, delete_call, read_call, Reply, perform, Implements,
}
use ycsb_c_copy.Prelude.{◌≡◌, true, [], ◌∷◌}
use ycsb_c_copy.RedisClient.{Hiredis, RedisClient}
use ycsb_c_copy.RedisDb.Served.{
  Hashes, set_hash, set_fields, no_fields, pairs_of, is_plain, ArePlain, IsServed, IsSettled,
  update-served, delete-served, read-served,
}
use ycsb_c_copy.RedisDb.{redis_db, insert}
use ycsb_c_copy.Run.{ok}

-- The calls on the hashes: nothing is a conflict, and a missing key reads as empty texts.
abbrev reply : Call → Hashes → Reply
reply (read_call t k fs) s = (k_ok, pairs_of (s k) fs)
reply _ s = (k_ok, [])

abbrev outcome : Call → Hashes → Hashes
outcome (insert_call t k vs) s = set_hash s k (set_fields (s k) vs)
outcome (update_call t k vs) s = set_hash s k (set_fields (s k) vs)
outcome (delete_call t k) s = set_hash s k no_fields
outcome (read_call t k fs) s = s

-- Keys, names and values hold no space, `%` or byte 0 and are not empty, and there is a field to write or to read.
abbrev pub IsAllowed : Call → Type 0
IsAllowed (insert_call t k []) = ⊥
IsAllowed (insert_call t k (e ∷ vs)) = (is_plain k ≡ true) × ArePlain (e ∷ vs)
IsAllowed (update_call t k []) = ⊥
IsAllowed (update_call t k (e ∷ vs)) = (is_plain k ≡ true) × ArePlain (e ∷ vs)
IsAllowed (delete_call t k) = is_plain k ≡ true
IsAllowed (read_call t k []) = ⊥
IsAllowed (read_call t k (f ∷ fs)) = Unit

module _ (ℋ : Hiredis) (served : IsServed ℋ) where
  abbrev pub hashes_of : RedisClient ℋ → Hashes
  hashes_of client = served.data_of client.context

  pub perform-served :
      (c : Call) (client : RedisClient ℋ)
      → IsAllowed c
      → IsSettled ℋ served client
      → (client' : RedisClient ℋ) × (perform (redis_db ℋ) c client
          ≡ ok (reply c (hashes_of client), client'))
        × IsSettled ℋ served client'
        × (hashes_of client' ≡ outcome c (hashes_of client))
  unfolding insert
  perform-served (insert_call t k []) client allowed settled = elim allowed [ ]
  perform-served (update_call t k []) client allowed settled = elim allowed [ ]
  perform-served (read_call t k []) client allowed settled = elim allowed [ ]
  perform-served (insert_call t k (e ∷ vs)) client (plain, good) settled =
      let (client', run, s, w) = update-served ℋ served t k plain e vs client good settled in
      (client', rw run, s, w)
  perform-served (update_call t k (e ∷ vs)) client (plain, good) settled =
      let (client', run, s, w) = update-served ℋ served t k plain e vs client good settled in
      (client', rw run, s, w)
  perform-served (delete_call t k) client plain settled =
      let (client', run, s, w) = delete-served ℋ served t k plain client settled in
      (client', rw run, s, w)
  perform-served (read_call t k (f ∷ fs)) client allowed settled =
      let (client', run, s, w) = read-served ℋ served t k f fs client settled in
      (client', rw run, s, w)

  abbrev pub hashes_model : Implements (redis_db ℋ)
  hashes_model = record {
    Model = Hashes;
    IsGood = IsSettled ℋ served;
    IsAllowed = IsAllowed;
    model_of = hashes_of;
    reply = reply;
    outcome = outcome;
    step = perform-served;
  }
