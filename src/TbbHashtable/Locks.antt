-- ===== src/TbbHashtable/Locks.antt =====
-- The calls of several threads on one table of TBB: the lock that each call takes for its whole body,
-- and what happens meanwhile to the node of one key, from when it is there to when it is erased.
-- Lookups of TBB compare keys under no other lock, and one accessor at a time holds a node.
pub mod Races
use ycsb_c_copy.Prelude.{ℕ, suc, ◌+◌, ◌<◌, ◌≡◌, Bool, true, false}

pub data Operation : Type 0 where
  get insert update remove entries : Operation

-- `scoped_lock lock(mutex_, false)` is shared, and `scoped_lock lock(mutex_)` is exclusive.
pub data Lock : Type 0 where
  shared exclusive : Lock

pub data Table : Type 0 where
  rand scan : Table

abbrev pub rand_lock : Operation → Lock
rand_lock entries = exclusive
rand_lock _ = shared

abbrev pub scan_lock : Operation → Lock
scan_lock update = exclusive
scan_lock remove = exclusive
scan_lock _ = shared

abbrev pub lock_of : Table → Operation → Lock
lock_of rand o = rand_lock o
lock_of scan o = scan_lock o

-- The threads inside a call. Those in `Remove` are `removing` while they look for the node, `holding`
-- when they have found it, and `freeing` between `String::Free` and the call of `erase`. The others are
-- `looking` or have `ended` their lookup, by the lock they hold.
pub record Threads : Type 0 where
  pub looking_shared : ℕ
  pub ended_shared : ℕ
  pub looking_exclusive : ℕ
  pub ended_exclusive : ℕ
  pub removing : ℕ
  pub holding : ℕ
  pub freeing : ℕ
  pub is_there : Bool

abbrev pub in_remove : Threads → ℕ
in_remove t = t.removing + t.holding + t.freeing

abbrev pub count_if : Lock → Lock → ℕ → ℕ
count_if shared shared n = n
count_if exclusive exclusive n = n
count_if _ _ n = 0

-- The threads that hold the lock in each way.
abbrev pub shared_holders : Table → Threads → ℕ
shared_holders T t =
    t.looking_shared + t.ended_shared + count_if (lock_of T remove) shared (in_remove t)

abbrev pub exclusive_holders : Table → Threads → ℕ
exclusive_holders T t =
    t.looking_exclusive + t.ended_exclusive + count_if (lock_of T remove) exclusive (in_remove t)

-- A shared lock waits for exclusive ones, and an exclusive lock for all.
abbrev pub IsFree : Table → Lock → Threads → Type 0
IsFree T shared t = exclusive_holders T t ≡ 0
IsFree T exclusive t = (exclusive_holders T t ≡ 0) × (shared_holders T t ≡ 0)

abbrev pub enter : Lock → Threads → Threads
enter shared t = record t { looking_shared = t.looking_shared + 1 }
enter exclusive t = record t { looking_exclusive = t.looking_exclusive + 1 }

abbrev pub IsOther : Operation → Type 0
IsOther remove = ⊥
IsOther _ = Unit

pub data Step (T : Table) : Threads → Threads → Type 0 where
  enters :
      (t : Threads) (o : Operation)
      → IsOther o
      → IsFree T (lock_of T o) t
      → Step T t (enter (lock_of T o) t)
  enters_remove :
      (t : Threads)
      → IsFree T (lock_of T remove) t
      → Step T t (record t { removing = t.removing + 1 })
  looks_shared :
      (t : Threads) (n : ℕ)
      → t.looking_shared ≡ suc n
      → Step T t (record t { looking_shared = n; ended_shared = t.ended_shared + 1 })
  looks_exclusive :
      (t : Threads) (n : ℕ)
      → t.looking_exclusive ≡ suc n
      → Step T t (record t { looking_exclusive = n; ended_exclusive = t.ended_exclusive + 1 })
  leaves_shared :
      (t : Threads) (n : ℕ) → t.ended_shared ≡ suc n → Step T t (record t { ended_shared = n })
  leaves_exclusive :
      (t : Threads) (n : ℕ)
      → t.ended_exclusive ≡ suc n
      → Step T t (record t { ended_exclusive = n })
  -- `Remove` returns null.
  misses :
      (t : Threads) (n : ℕ)
      → t.removing ≡ suc n
      → t.is_there ≡ false
      → Step T t (record t { removing = n })
  finds :
      (t : Threads) (n : ℕ)
      → t.removing ≡ suc n
      → t.is_there ≡ true
      → t.holding + t.freeing ≡ 0
      → Step T t (record t { removing = n; holding = 1 })
  frees_key :
      (t : Threads) (n : ℕ)
      → t.holding ≡ suc n
      → Step T t (record t { holding = n; freeing = t.freeing + 1 })
  erases :
      (t : Threads) (n : ℕ)
      → t.freeing ≡ suc n
      → Step T t (record t { freeing = n; is_there = false })

pub data Steps (T : Table) (t : Threads) : Threads → Type 0 where
  none_yet : Steps T t t
  after : {u w : Threads} → Steps T t u → Step T u w → Steps T t w

-- No thread is inside, and the node is in the table.
abbrev pub start : Threads
start = record {
  looking_shared = 0;
  ended_shared = 0;
  looking_exclusive = 0;
  ended_exclusive = 0;
  removing = 0;
  holding = 0;
  freeing = 0;
  is_there = true;
}

-- A lookup may compare with the key of the node, which is freed.
abbrev pub IsRace : Threads → Type 0
IsRace t = (0 < t.freeing) × (0 < t.looking_shared + t.looking_exclusive + t.removing)
