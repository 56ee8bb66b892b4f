-- ===== src/RedisDb/Served.antt =====
-- hiredis on a live connection to a server of hashes, as both document it, and each operation of
-- `RedisDB` against what the server holds.
use ycsb_c_copy.Db.{KvPair, k_ok}
use ycsb_c_copy.Prelude.Int.{ℤ, pos, is_zero}
use ycsb_c_copy.Prelude.{
  ℕ, suc, ◌≡◌, refl, sym, ◌∙◌, ap, Option-cases, Bool, true, false, not, ◌&&◌, List, [], ◌∷◌, ◌++◌,
  map, Option, none, some, if◌then◌else◌, Bytes, codes, ◌==◌, equal, arith, Bool-cases, inl, inr,
  append-nil, append_assoc,
}
use ycsb_c_copy.RedisClient
use ycsb_c_copy.RedisClient.{
  Hiredis, RedisClient, Pointer, Reply, array, live, int, take_reply, after_reply,
  free_reply_object,
}
use ycsb_c_copy.RedisDb.Commands.{
  words, flatten, tail, IsWord, AreWords, update_command-words, words-one,
}
use ycsb_c_copy.RedisDb.{has_space, read_arguments, take_values, take_array, read, update, delete}
use ycsb_c_copy.Run.{ok, ◌>>=◌}

-- A text with no space, no `%` and no byte 0.
abbrev is_clean : Bytes → Bool
is_clean [] = true
is_clean (c ∷ s) = not (c == b' ') && (not (c == b'%') && (not (c == 0) && is_clean s))

-- The same, and not empty.
abbrev pub is_plain : Bytes → Bool
is_plain [] = false
is_plain (c ∷ s) = is_clean (c ∷ s)

-- A text that hiredis takes for the format of a command with no argument.
abbrev pub has_no_conversion : Bytes → Bool
has_no_conversion [] = true
has_no_conversion (c ∷ s) = not (c == b'%') && (not (c == 0) && has_no_conversion s)

-- A hash of the server, and all of them; a hash that is not there has no field.
abbrev pub Hash : Type 0
Hash = Bytes → Option Bytes

abbrev pub Hashes : Type 0
Hashes = Bytes → Hash

abbrev pub set_field : Hash → KvPair → Hash
set_field h (f, v) q = if equal f q then some v else h q

abbrev pub set_fields : Hash → List KvPair → Hash
set_fields h [] = h
set_fields h (e ∷ es) = set_fields (set_field h e) es

abbrev pub set_hash : Hashes → Bytes → Hash → Hashes
set_hash s key h q = if equal key q then h else s q

abbrev pub no_fields : Hash
no_fields f = none

-- `data` is what the server holds once it has run every command that was appended, and `pending`
-- counts the replies that have not been read.
pub record IsServed (ℋ : Hiredis) : Type 0 where
  pub data_of : ℋ.Context → Hashes
  pub pending : ℋ.Context → ℕ
  pub append-pending :
      (cmd : Bytes) (arguments : List RedisClient.Argument) (c : ℋ.Context)
      → pending (ℋ.append_command cmd arguments c) ≡ suc (pending c)
  pub append-wait :
      (n : ℤ) (c : ℋ.Context)
      → data_of (ℋ.append_command (codes "WAIT %d %d") (int n ∷ int (pos 0) ∷ []) c) ≡ data_of c
  -- `HMSET` writes its fields in order, if there is one.
  pub append-hmset :
      (cmd key : Bytes) (e : KvPair) (values : List KvPair) (c : ℋ.Context)
      → has_no_conversion cmd ≡ true
      → words [] cmd ≡ codes "HMSET" ∷ key ∷ flatten (e ∷ values)
      → data_of (ℋ.append_command cmd [] c)
        ≡ set_hash (data_of c) key (set_fields (data_of c key) (e ∷ values))
  pub append-del :
      (cmd key : Bytes) (c : ℋ.Context)
      → has_no_conversion cmd ≡ true
      → words [] cmd ≡ codes "DEL" ∷ key ∷ []
      → data_of (ℋ.append_command cmd [] c) ≡ set_hash (data_of c) key no_fields
  pub replies :
      (p : Pointer) (c : ℋ.Context) (n : ℕ)
      → pending c ≡ suc n
      → (r : Reply) × (c' : ℋ.Context) × (ℋ.get_reply p c ≡ (true, live r, c'))
        × (pending c' ≡ n)
        × (data_of c' ≡ data_of c)
  -- `HMGET` answers with one element for each field, if there is one.
  pub hmget :
      (key f : Bytes) (fields : List Bytes) (c : ℋ.Context)
      → pending c ≡ 0
      → (c' : ℋ.Context) × (ℋ.command_argv (codes "HMGET" ∷ key ∷ f ∷ fields) c
          ≡ (some (array (map (data_of c key) (f ∷ fields))), c'))
        × (pending c' ≡ 0)
        × (data_of c' ≡ data_of c)

-- A missing field reads as the empty text.
abbrev pub pairs_of : Hash → List Bytes → List KvPair
pairs_of h [] = []
pairs_of h (f ∷ fs) = (f, elim (h f) [ none ↦ [] | some v ↦ v ]) ∷ pairs_of h fs

take_values-pairs_of :
    (h : Hash) (fields : List Bytes) (result : List KvPair)
    → take_values fields (map h fields) result ≡ ok (result ++ pairs_of h fields)
unfolding take_values
take_values-pairs_of h [] result = ap ok (sym (append-nil result))
take_values-pairs_of h (f ∷ fs) result = elim (Option-cases (h f)) [
  | inl e ↦ rw e (
      take_values-pairs_of h fs (result ++ (f, []) ∷ [])
      ∙ ap ok (append_assoc result ((f, []) ∷ []) (pairs_of h fs)))
  | inr (v, e) ↦ rw e (
      take_values-pairs_of h fs (result ++ (f, v) ∷ [])
      ∙ ap ok (append_assoc result ((f, v) ∷ []) (pairs_of h fs)))
]

module _ (ℋ : Hiredis) (served : IsServed ℋ) where
  open served use {data_of, pending}

  -- A client whose connection has no reply to be read.
  abbrev pub IsSettled : RedisClient ℋ → Type 0
  IsSettled client = pending client.context ≡ 0

  take_reply-pending :
      (p : Pointer) (c : ℋ.Context) (n : ℕ)
      → pending c ≡ suc n
      → (c' : ℋ.Context) × (take_reply ℋ p c ≡ ok (Pointer.freed, c'))
        × (pending c' ≡ n)
        × (data_of c' ≡ data_of c)
  unfolding take_reply after_reply free_reply_object
  take_reply-pending p c n h =
      let (r, c', got, left, same) = served.replies p c n h in
      (c', ap (after_reply ℋ) got, left, same)

  -- Whatever the number of slaves, `Command` reads a reply for each command that it appends.
  pub command-IsSettled :
      (cmd : Bytes) (client : RedisClient ℋ)
      → IsSettled client
      → (client' : RedisClient ℋ) × (RedisClient.command ℋ cmd client ≡ ok (0, client'))
        × IsSettled client'
        × (data_of client'.context ≡ data_of (ℋ.append_command cmd [] client.context))
  unfolding RedisClient.command
  command-IsSettled cmd client settled =
      let c = ℋ.append_command cmd [] client.context in
      let one : pending c ≡ 1 = served.append-pending cmd [] client.context ∙ ap suc settled in
      elim (Bool-cases (is_zero client.slaves)) [
        | inl e ↦
            let (c', took, left, same) = take_reply-pending Pointer.unset c 0 one in
            (record client { context = c' }, rw (e, took), left, same)
        | inr e ↦
            let w =
              ℋ.append_command (codes "WAIT %d %d") (int client.slaves ∷ int (pos 0) ∷ []) c in
            let two : pending w ≡ 2 =
              served.append-pending (codes "WAIT %d %d") (int client.slaves ∷ int (pos 0) ∷ []) c
              ∙ ap suc one in
            let (c', took, left, same) = take_reply-pending Pointer.unset w 1 two in
            let (c'', took', left', same') = take_reply-pending Pointer.freed c' 0 left in
            (
              record client { context = c'' },
              rw (e, took, took'),
              left',
              same' ∙ (same ∙ served.append-wait client.slaves c),
            )
      ]

  pub read-served :
      (table key f : Bytes) (fields : List Bytes) (client : RedisClient ℋ)
      → IsSettled client
      → (client' : RedisClient ℋ) × (read ℋ table key (some (f ∷ fields)) [] client
          ≡ ok (k_ok, pairs_of (data_of client.context key) (f ∷ fields), client'))
        × IsSettled client'
        × (data_of client'.context ≡ data_of client.context)
  unfolding read read_arguments take_array
  read-served table key f fields client settled =
      let (c', got, left, same) = served.hmget key f fields client.context settled in
      (
        record client { context = c' },
        ap (take_array ℋ (λ elements. take_values (f ∷ fields) elements []) [] client) got
            ∙ rw (take_array, take_values-pairs_of (data_of client.context key) (f ∷ fields) []),
        left,
        same,
      )

has_no_conversion-append :
    (s t : Bytes)
    → has_no_conversion s ≡ true
    → has_no_conversion t ≡ true
    → has_no_conversion (s ++ t) ≡ true
has_no_conversion-append [] t hs ht = ht
has_no_conversion-append (c ∷ s) t hs ht = ground (arith, has_no_conversion-append s t)

is_clean-parts :
    (s : Bytes) → is_clean s ≡ true → (has_space s ≡ false) × (has_no_conversion s ≡ true)
unfolding has_space
is_clean-parts [] h = (refl, refl)
is_clean-parts (c ∷ s) h = (ground (arith, is_clean-parts s), ground (arith, is_clean-parts s))

is_plain-parts : (s : Bytes) → is_plain s ≡ true → IsWord s × (has_no_conversion s ≡ true)
is_plain-parts [] h = cc
is_plain-parts (c ∷ s) h =
    let (no_space, fine) = is_clean-parts (c ∷ s) h in ((no_space, refl), fine)

abbrev pub ArePlain : List KvPair → Type 0
ArePlain [] = Unit
ArePlain ((f, v) ∷ values) = (is_plain f ≡ true) × (is_plain v ≡ true) × ArePlain values

ArePlain-AreWords : (values : List KvPair) → ArePlain values → AreWords values
ArePlain-AreWords [] h = tt
ArePlain-AreWords ((f, v) ∷ values) (hf, hv, h) =
    ((is_plain-parts f hf).0, (is_plain-parts v hv).0, ArePlain-AreWords values h)

has_no_conversion-tail :
    (values : List KvPair) → ArePlain values → has_no_conversion (tail values) ≡ true
has_no_conversion-tail [] h = refl
has_no_conversion-tail ((f, v) ∷ values) (hf, hv, h) =
    has_no_conversion-append f (b' ' ∷ (v ++ tail values)) (is_plain-parts f hf).1 (
      has_no_conversion-append v (tail values) (is_plain-parts v hv).1
        (has_no_conversion-tail values h))

module _ (ℋ : Hiredis) (served : IsServed ℋ) (table key : Bytes) (plain : is_plain key ≡ true) where
  open served use {data_of, pending}

  pub update-served :
      (e : KvPair) (values : List KvPair) (client : RedisClient ℋ)
      → ArePlain (e ∷ values)
      → IsSettled ℋ served client
      → (client' : RedisClient ℋ) × (update ℋ table key (e ∷ values) client ≡ ok (k_ok, client'))
        × IsSettled ℋ served client'
        × (data_of client'.context
            ≡ set_hash
                (data_of client.context)
                key
                (set_fields (data_of client.context key) (e ∷ values)))
  unfolding update
  update-served e values client good settled =
      let (no_space, fine) = is_plain-parts key plain in
      let cmd = codes "HMSET" ++ b' ' ∷ (key ++ tail (e ∷ values)) in
      let (made, has_words) =
        update_command-words key (e ∷ values) no_space (ArePlain-AreWords (e ∷ values) good) in
      let (client', run, settled', wrote) = command-IsSettled ℋ served cmd client settled in
      (
        client',
        rw (made, ◌>>=◌, run),
        settled',
        wrote
            ∙ served.append-hmset cmd key e values client.context
                (has_no_conversion-append key (tail (e ∷ values)) fine
                  (has_no_conversion-tail (e ∷ values) good))
                has_words,
      )

  pub delete-served :
      (client : RedisClient ℋ)
      → IsSettled ℋ served client
      → (client' : RedisClient ℋ) × (delete ℋ table key client ≡ ok (k_ok, client'))
        × IsSettled ℋ served client'
        × (data_of client'.context ≡ set_hash (data_of client.context) key no_fields)
  unfolding delete
  delete-served client settled =
      let (no_space, fine) = is_plain-parts key plain in
      let (client', run, settled', wrote) =
        command-IsSettled ℋ served (codes "DEL " ++ key) client settled in
      (
        client',
        rw (run, ◌>>=◌),
        settled',
        wrote
            ∙ served.append-del (codes "DEL " ++ key) key client.context fine
                (words-one (codes "DEL") key (unfold has_space in (refl, refl)) no_space),
      )
