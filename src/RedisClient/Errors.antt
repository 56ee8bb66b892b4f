-- ===== src/RedisClient/Errors.antt =====
-- How `RedisClient` ends when the connection fails.
use ycsb_c_copy.Prelude.Int.{pos, is_zero}
use ycsb_c_copy.Prelude.{◌≡◌, true, false, [], ◌∷◌, Bytes, codes}
use ycsb_c_copy.RedisClient.{
  Hiredis, RedisClient, Reply, unset, freed, live, int, command, take_reply, after_reply,
  handle_error, free_reply_object,
}
use ycsb_c_copy.Run.{fault, undefined}

module _ (ℋ : Hiredis) (cmd : Bytes) (client : RedisClient ℋ) where
  -- The contexts with the command, and with the command and its `WAIT`.
  abbrev pub appended : ℋ.Context
  appended = ℋ.append_command cmd [] client.context

  abbrev pub with_wait : ℋ.Context
  with_wait = ℋ.append_command (codes "WAIT %d %d") (int client.slaves ∷ int (pos 0) ∷ []) appended

  -- A reply that fails, while `redisGetReply` leaves the pointer as it was: the reply to the command
  -- without slaves, the same with slaves, or the reply to `WAIT`.
  pub data NoReply : Type 0 where
    no_reply :
        (c : ℋ.Context)
        → is_zero client.slaves ≡ true
        → ℋ.get_reply unset appended ≡ (false, unset, c)
        → NoReply
    no_first :
        (c : ℋ.Context)
        → is_zero client.slaves ≡ false
        → ℋ.get_reply unset with_wait ≡ (false, unset, c)
        → NoReply
    no_wait :
        (r : Reply) (c c' : ℋ.Context)
        → is_zero client.slaves ≡ false
        → ℋ.get_reply unset with_wait ≡ (true, live r, c)
        → ℋ.get_reply freed c ≡ (false, freed, c')
        → NoReply

  -- Whichever reply fails, as long as `redisGetReply` then leaves the pointer as it was, `Command` does
  -- not end in `exit(2)`: it frees a pointer that was never set, or the first reply again.
  pub command-undefined : NoReply → command ℋ cmd client ≡ fault undefined
  unfolding command take_reply after_reply handle_error free_reply_object
  command-undefined (no_reply c none_to_wait e) = rw (command, none_to_wait, e)
  command-undefined (no_first c to_wait e) = rw (command, to_wait, e)
  command-undefined (no_wait r c c' to_wait e e') = rw (command, to_wait, e, e')
