-- ===== src/RedisClient.antt =====
-- redis/redis_client.h: `RedisClient` over hiredis, whose calls and replies are parameters.
pub mod Errors
use ycsb_c_copy.Prelude.Int.{ℤ, pos, is_zero}
use ycsb_c_copy.Prelude.{
  ℕ, zero, Bool, true, false, List, [], ◌∷◌, Option, none, some, if◌then◌else◌, Bytes, codes,
}
use ycsb_c_copy.Run.{Run, ok, fault, exited, undefined, ◌>>=◌}

-- What follows a format.
pub data Argument : Type 0 where
  int : ℤ → Argument
  text : Bytes → Argument

-- A `redisReply`: an array, by the C strings `str` of its elements, or a reply of another type.
pub data Reply : Type 0 where
  array : List (Option Bytes) → Reply
  other : Reply

-- What a `redisReply *` holds: nothing yet, null, a reply, or a reply that has been freed.
pub data Pointer : Type 0 where
  unset null freed : Pointer
  live : Reply → Pointer

-- hiredis. `connect` gives `none` for a null context, and `err` tells whether its `err` is set.
-- `get_reply` is passed what the pointer held, and gives false for `REDIS_ERR`. A format that is
-- passed to `append_command` ends at its first byte 0.
pub record Hiredis : Type 1 where
  pub Context : Type 0
  pub connect : Bytes → ℤ → Option Context
  pub err : Context → Bool
  pub append_command : Bytes → List Argument → Context → Context
  pub get_reply : Pointer → Context → Bool × Pointer × Context
  pub command : Bytes → List Argument → Context → Option Reply × Context
  pub command_argv : List Bytes → Context → Option Reply × Context

pub record RedisClient (ℋ : Hiredis) : Type 0 where
  pub context : ℋ.Context
  pub slaves : ℤ

-- `freeReplyObject`, which does nothing on a null pointer.
unfoldable pub free_reply_object : Pointer → Run Pointer
free_reply_object unset = fault undefined
free_reply_object null = ok null
free_reply_object freed = fault undefined
free_reply_object (live r) = ok freed

-- It does not return. An unset or freed pointer is not null, and is freed.
unfoldable pub handle_error {ℓ} : {A : Type ℓ} → Pointer → Run A
unfolding free_reply_object
handle_error null = fault (exited 2)
handle_error reply = do reply' ← free_reply_object reply; fault (exited 2)

module _ (ℋ : Hiredis) where
  unfoldable pub new : Bytes → ℤ → ℤ → Run (RedisClient ℋ)
  new host port slaves = elim (ℋ.connect host port) [
    | none ↦ fault (exited 1)
    | some c ↦ if ℋ.err c then fault (exited 1) else ok (record { context = c; slaves = slaves })
  ]

  -- What `Command` does with the result of `redisGetReply`, up to the next `freeReplyObject`.
  unfoldable pub after_reply : Bool × Pointer × ℋ.Context → Run (Pointer × ℋ.Context)
  unfolding free_reply_object handle_error
  after_reply (true, reply, context) = do reply' ← free_reply_object reply; ok (reply', context)
  after_reply (false, reply, context) = handle_error reply

  unfoldable pub take_reply : Pointer → ℋ.Context → Run (Pointer × ℋ.Context)
  unfolding after_reply
  take_reply reply context = after_reply (ℋ.get_reply reply context)

  unfoldable pub command : Bytes → RedisClient ℋ → Run (ℕ × RedisClient ℋ)
  unfolding take_reply
  command cmd client = do
    let appended = ℋ.append_command cmd [] client.context
    let waits : ℋ.Context = elim (is_zero client.slaves) [
      | true ↦ appended
      | false ↦
          ℋ.append_command (codes "WAIT %d %d") (int client.slaves ∷ int (pos 0) ∷ []) appended
    ]
    (reply, context) ← take_reply unset waits
    context' ← elim (is_zero client.slaves) [
      | true ↦ ok context
      | false ↦ do (reply', context') ← take_reply reply context; ok context'
    ]
    ok (0, record client { context = context' })
