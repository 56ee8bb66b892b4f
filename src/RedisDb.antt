-- ===== src/RedisDb.antt =====
-- db/redis_db.cc and db/redis_db.h: `RedisDB` on the client of redis/redis_client.h.
pub mod Commands
pub mod Served
pub mod History
use ycsb_c_copy.Db.{Db, KvPair, k_ok}
use ycsb_c_copy.HashString.{c_str}
use ycsb_c_copy.Prelude.Int.{ℤ}
use ycsb_c_copy.RedisClient
use ycsb_c_copy.RedisClient.{Hiredis, RedisClient, Reply, array, other, text}
use ycsb_c_copy.Prelude.{
  ℕ, zero, suc, ◌+◌, ◌/◌, Bool, true, false, not, ◌||◌, List, [], ◌∷◌, ◌++◌, Option, none, some,
  Bytes, codes, length, ◌==◌,
}
use ycsb_c_copy.Run.{Run, ok, fault, failed_assert, thrown_text, undefined, require, ◌>>=◌, ◌>>◌}

-- `s.find(' ') != string::npos`
unfoldable pub has_space : Bytes → Bool
has_space [] = false
has_space (c ∷ s) = c == b' ' || has_space s

-- The first loop of `Update`, from the length `len` on.
unfoldable pub add_lengths : ℕ → List KvPair → ℕ
add_lengths len [] = len
add_lengths len ((f, v) ∷ values) = add_lengths (len + (length f + length v + 2)) values

-- The second loop of `Update`.
unfoldable pub append_fields : Bytes → List KvPair → Run Bytes
unfolding has_space
append_fields cmd [] = ok cmd
append_fields cmd ((f, v) ∷ values) = do
  require (not (has_space f)) failed_assert
  require (not (has_space v)) failed_assert
  append_fields (cmd ++ b' ' ∷ (f ++ b' ' ∷ v)) values

-- The command that `Update` and `Insert` send.
unfoldable pub update_command : Bytes → List KvPair → Run Bytes
unfolding append_fields add_lengths
update_command key values = do
  let len = add_lengths (length (codes "HMSET") + length key + 1) values
  cmd ← append_fields (codes "HMSET" ++ b' ' ∷ key) values
  require (length cmd == len) failed_assert
  ok cmd

-- The arguments of the command that `Read` sends for the listed fields.
unfoldable pub read_arguments : Bytes → List Bytes → List Bytes
read_arguments key fields = codes "HMGET" ∷ key ∷ fields

-- The loop over an array of one element for each field; a missing value reads as the empty string.
unfoldable pub take_values : List Bytes → List (Option Bytes) → List KvPair → Run (List KvPair)
take_values [] [] result = ok result
take_values (f ∷ fields) (none ∷ elements) result =
    take_values fields elements (result ++ (f, []) ∷ [])
take_values (f ∷ fields) (some v ∷ elements) result =
    take_values fields elements (result ++ (f, v) ∷ [])
take_values _ _ result = fault failed_assert

-- The loop over an array of names and values; a null `str` is no argument for `string`.
unfoldable pub take_pairs : List (Option Bytes) → List KvPair → Run (List KvPair)
take_pairs (some f ∷ some v ∷ elements) result = take_pairs elements (result ++ (f, v) ∷ [])
take_pairs (none ∷ e ∷ elements) result = fault undefined
take_pairs (some f ∷ none ∷ elements) result = fault undefined
take_pairs _ result = ok result

module _ (ℋ : Hiredis) where
  -- What `Read` does with a reply, by its loop over the elements. A null reply is no error.
  unfoldable pub take_array :
      (List (Option Bytes) → Run (List KvPair))
      → List KvPair
      → RedisClient ℋ
      → Option Reply × ℋ.Context
      → Run (ℕ × List KvPair × RedisClient ℋ)
  take_array loop result client (none, context) =
      ok (k_ok, result, record client { context = context })
  take_array loop result client (some other, context) = fault failed_assert
  take_array loop result client (some (array elements), context) = do
    result' ← loop elements
    ok (k_ok, result', record client { context = context })

  -- The number of arguments is asserted as it was computed.
  unfoldable pub read :
      Bytes
      → Bytes
      → Option (List Bytes)
      → List KvPair
      → RedisClient ℋ
      → Run (ℕ × List KvPair × RedisClient ℋ)
  unfolding read_arguments take_values take_pairs take_array
  read table key (some fields) result client =
      take_array (λ elements. take_values fields elements result) result client
        (ℋ.command_argv (read_arguments key fields) client.context)
  read table key none result client =
      take_array (λ elements. take_pairs elements result) result client
        (ℋ.command (codes "HGETALL %s") (text (c_str key) ∷ []) client.context)

  unfoldable pub update : Bytes → Bytes → List KvPair → RedisClient ℋ → Run (ℕ × RedisClient ℋ)
  unfolding update_command RedisClient.command
  update table key values client = do
    cmd ← update_command key values
    (code, client') ← RedisClient.command ℋ cmd client
    ok (k_ok, client')

  unfoldable pub insert : Bytes → Bytes → List KvPair → RedisClient ℋ → Run (ℕ × RedisClient ℋ)
  unfolding update
  insert table key values client = update table key values client

  unfoldable pub delete : Bytes → Bytes → RedisClient ℋ → Run (ℕ × RedisClient ℋ)
  unfolding RedisClient.command
  delete table key client = do
    (code, client') ← RedisClient.command ℋ (codes "DEL " ++ key) client
    ok (k_ok, client')

  unfoldable pub scan :
      Bytes
      → Bytes
      → ℤ
      → Option (List Bytes)
      → List (List KvPair)
      → RedisClient ℋ
      → Run (ℕ × List (List KvPair) × RedisClient ℋ)
  scan table key len fields result client =
      fault (thrown_text (codes "Scan: function not implemented!"))

  -- It keeps the empty bodies of `Init`, `Close`, `HandleAllData` and `FinalFlushDisk` of core/db.h.
  abbrev pub redis_db : Db
  redis_db = record {
    State = RedisClient ℋ;
    init = λ flag s. ok s;
    read = read;
    scan = scan;
    update = update;
    insert = insert;
    delete = delete;
    close = λ s. ok s;
    handle_all_data = λ s. ok s;
    final_flush_disk = λ s. ok s;
  }
