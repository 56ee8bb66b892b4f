-- ===== src/TbbHashtable/Locks/Races.antt =====
-- The order of `String::Free` and `erase` in `Remove`, under the locks of the two tables.
use ycsb_c_copy.Prelude.{◌+◌, ◌<◌, ◌≤◌, ◌≡◌, refl, true, arith}
use ycsb_c_copy.TbbHashtable.Locks.{
  get, insert, update, remove, entries, shared, Table, rand, scan, Threads, shared_holders,
  exclusive_holders, enter, Step, enters, enters_remove, looks_shared, looks_exclusive,
  leaves_shared, leaves_exclusive, misses, finds, frees_key, erases, Steps, none_yet, after, start,
  IsRace,
}

-- An exclusive holder is alone.
abbrev pub IsLocked : Table → Threads → Type 0
IsLocked T t = (exclusive_holders T t ≤ 1) × (0 < exclusive_holders T t → shared_holders T t ≡ 0)

Step-IsLocked : (T : Table) {t u : Threads} → Step T t u → IsLocked T t → IsLocked T u
Step-IsLocked rand (enters t get other free) h = ground arith
Step-IsLocked rand (enters t insert other free) h = ground arith
Step-IsLocked rand (enters t update other free) h = ground arith
Step-IsLocked rand (enters t entries other free) h = ground arith
Step-IsLocked rand (enters t remove other free) h = absurd other
Step-IsLocked scan (enters t get other free) h = ground arith
Step-IsLocked scan (enters t insert other free) h = ground arith
Step-IsLocked scan (enters t update other free) h = ground arith
Step-IsLocked scan (enters t entries other free) h = ground arith
Step-IsLocked scan (enters t remove other free) h = absurd other
Step-IsLocked rand (enters_remove t free) h = ground arith
Step-IsLocked scan (enters_remove t free) h = ground arith
Step-IsLocked rand (looks_shared t n e) h = ground arith
Step-IsLocked scan (looks_shared t n e) h = ground arith
Step-IsLocked rand (looks_exclusive t n e) h = ground arith
Step-IsLocked scan (looks_exclusive t n e) h = ground arith
Step-IsLocked rand (leaves_shared t n e) h = ground arith
Step-IsLocked scan (leaves_shared t n e) h = ground arith
Step-IsLocked rand (leaves_exclusive t n e) h = ground arith
Step-IsLocked scan (leaves_exclusive t n e) h = ground arith
Step-IsLocked rand (misses t n e gone) h = ground arith
Step-IsLocked scan (misses t n e gone) h = ground arith
Step-IsLocked rand (finds t n e there alone) h = ground arith
Step-IsLocked scan (finds t n e there alone) h = ground arith
Step-IsLocked rand (frees_key t n e) h = ground arith
Step-IsLocked scan (frees_key t n e) h = ground arith
Step-IsLocked rand (erases t n e) h = ground arith
Step-IsLocked scan (erases t n e) h = ground arith

Steps-IsLocked : (T : Table) {t u : Threads} → Steps T t u → IsLocked T t → IsLocked T u
Steps-IsLocked T none_yet h = h
Steps-IsLocked T (after steps step) h = Step-IsLocked T step (Steps-IsLocked T steps h)

-- Whatever the order of the steps of any number of threads on `TbbScanHashtable`, no lookup meets the
-- key that `Remove` has freed, and on both tables a thread that holds the lock exclusively is alone
-- inside.
pub Steps-safe :
    (t u : Threads)
    → Steps rand start t
    → Steps scan start u
    → IsLocked rand t × IsLocked scan u × (¬ IsRace u)
Steps-safe t u r s =
    let h = Steps-IsLocked rand r (ground arith) in
    let h' = Steps-IsLocked scan s (ground arith) in (h, h', λ race. ground arith)

-- On `TbbRandHashtable`, where `Remove` holds the lock shared, whenever the node is there and no thread
-- is exclusive or has the node, a lookup can meet the key that a `Remove` has freed.
pub rand_races :
    (t : Threads)
    → t.is_there ≡ true
    → exclusive_holders rand t ≡ 0
    → t.holding + t.freeing ≡ 0
    → (u : Threads) × Steps rand t u × IsRace u
rand_races t there unlocked alone =
    let a = enter shared t in
    let b : Threads = record a { removing = a.removing + 1 } in
    let c : Threads = record b { removing = a.removing; holding = 1 } in
    let d : Threads = record c { holding = 0; freeing = c.freeing + 1 } in
    (
      d,
      after
          (after (after (after none_yet (enters t get tt unlocked)) (enters_remove a unlocked))
            (finds b a.removing (omega arith) there alone))
          (frees_key c 0 refl),
      ground arith,
    )
