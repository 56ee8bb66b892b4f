-- ===== src/Tests/Redis.antt =====
-- A connection to a server of hashes that runs each command as it is appended, and one that is down.
use ycsb_c_copy.Db.{KvPair}
use ycsb_c_copy.Db.History.{Call, insert_call, update_call, delete_call, read_call, replies}
use ycsb_c_copy.Prelude.Int.{pos}
use ycsb_c_copy.Prelude.{
  ℕ, zero, suc, ◌≡◌, refl, ap, ◌∙◌, Bool, true, false, List, [], ◌∷◌, map, Option, none, some,
  if◌then◌else◌, Bytes, codes, equal,
}
use ycsb_c_copy.RedisClient.{Hiredis, RedisClient, Argument, Reply, other, live, Pointer, command}
use ycsb_c_copy.RedisClient
use ycsb_c_copy.RedisClient.Errors.{no_reply, command-undefined}
use ycsb_c_copy.RedisDb.Commands.{words, flatten}
use ycsb_c_copy.RedisDb.Served.{Hash, Hashes, set_field, set_fields, set_hash, no_fields, IsServed}
use ycsb_c_copy.Run.{fault, undefined}

record Server : Type 0 where
  hashes : Hashes
  unread : ℕ

abbrev set_words : Hash → List Bytes → Hash
set_words h (f ∷ v ∷ ws) = set_words (set_field h (f, v)) ws
set_words h _ = h

abbrev execute : List Bytes → Hashes → Hashes
execute (w ∷ key ∷ ws) s =
    if equal w (codes "HMSET")
    then set_hash s key (set_words (s key) ws)
    else (if equal w (codes "DEL") then set_hash s key no_fields else s)
execute _ s = s

abbrev reply_of : Server → Pointer → Bool × Pointer × Server
reply_of s p = elim s.unread [
  | zero ↦ (false, p, s)
  | suc n ↦ (true, live other, record s { unread = n })
]

abbrev answer : List Bytes → Server → Option Reply × Server
answer (w ∷ key ∷ fields) s = (some (RedisClient.array (map (s.hashes key) fields)), s)
answer _ s = (none, s)

abbrev server : Hiredis
server = record {
  Context = Server;
  connect = λ host port. some (record { hashes = λ k. no_fields; unread = 0 });
  err = λ s. false;
  append_command =
      λ cmd arguments s. record { hashes = execute (words [] cmd) s.hashes; unread = suc s.unread };
  get_reply = λ p s. reply_of s p;
  command = λ cmd arguments s. (none, s);
  command_argv = answer;
}

set_words-flatten : (h : Hash) (vs : List KvPair) → set_words h (flatten vs) ≡ set_fields h vs
set_words-flatten h [] = refl
set_words-flatten h ((f, v) ∷ vs) = set_words-flatten (set_field h (f, v)) vs

server-IsServed : IsServed server
unfolding words equal
server-IsServed = record {
  data_of = λ s. s.hashes;
  pending = λ s. s.unread;
  append-pending = λ cmd arguments s. refl;
  append-wait = λ n s. refl;
  append-hmset = λ cmd key e values s plain is_hmset.
      ap (λ ws. execute ws s.hashes) is_hmset
      ∙ ap (set_hash s.hashes key) (set_words-flatten (s.hashes key) (e ∷ values));
  append-del = λ cmd key s plain is_del. ap (λ ws. execute ws s.hashes) is_del;
  replies = λ p s n h. (other, record s { unread = n }, rw h, refl, refl);
  hmget = λ key f fields s h. (s, refl, h, refl);
}

abbrev client : RedisClient server
client = record { context = record { hashes = λ k. no_fields; unread = 0 }; slaves = pos 2 }

abbrev calls : List Call
calls =
    insert_call (codes "usertable") (codes "user1") ((codes "field0", codes "x") ∷ [])
    ∷ update_call (codes "usertable") (codes "user1") ((codes "field1", codes "y") ∷ [])
    ∷ read_call (codes "usertable") (codes "user1") (codes "field1" ∷ codes "field2" ∷ [])
    ∷ delete_call (codes "usertable") (codes "user1")
    ∷ []

-- A server that never answers.
abbrev down : Hiredis
down = record {
  Context = ℕ;
  connect = λ host port. some 0;
  err = λ n. false;
  append_command = λ cmd arguments n. suc n;
  get_reply = λ p n. (false, p, n);
  command = λ cmd arguments n. (none, n);
  command_argv = λ ws n. (none, n);
}

abbrev lonely : RedisClient down
lonely = record { context = 0; slaves = pos 0 }

command-undefined_example : command down (codes "DEL user1") lonely ≡ fault undefined
command-undefined_example = command-undefined down (codes "DEL user1") lonely (no_reply 1 refl refl)
