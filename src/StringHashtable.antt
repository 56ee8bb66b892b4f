-- ===== src/StringHashtable.antt =====
-- lib/string_hashtable.h: the interface of the hash tables, and what a table promises. Keys are C
-- strings or null pointers; values are pointers, and `none` is the null one.
pub mod Histories
use ycsb_c_copy.Prelude.{
  ℕ, suc, ◌+◌, ◌-◌, ◌≤◌, ◌≡◌, Bool, true, false, List, [], ◌∷◌, Option, none, some, if◌then◌else◌,
  Bytes, length, equal, equal_iff, Bool-cases, inl, inr,
}
use ycsb_c_copy.Run.{Run, ok}

pub record StringHashtable (V : Type 0) : Type 1 where
  pub State : Type 0
  pub get : State → Option Bytes → Run (Option V)
  pub insert : State → Option Bytes → V → Run (Bool × State)
  pub update : State → Option Bytes → V → Run (Option V × State)
  pub remove : State → Option Bytes → Run (Option V × State)
  pub entries : State → Option Bytes → ℕ → Run (List (Bytes × V))
  pub size : State → ℕ

module _ {V : Type 0} where
  abbrev pub is_none : Option V → Bool
  is_none none = true
  is_none (some v) = false

  abbrev pub or_value : Option V → V → V
  or_value none v = v
  or_value (some old) v = old

  -- Setting a key to what it has changes nothing.
  pub set_self :
      (f : Bytes → Option V) (k : Bytes) (o : Option V)
      → f k ≡ o
      → (q : Bytes) → f q ≡ (if equal k q then o else f q)
  set_self f k o e q = elim (Bool-cases (equal k q)) [
    | inl same ↦ rw same (rw ((equal_iff k q).0 same) at e)
    | inr other ↦ rw other
  ]

  -- The value of the first entry with the key.
  abbrev pub lookup : List (Bytes × V) → Bytes → Option V
  lookup [] q = none
  lookup ((k, v) ∷ es) q = let rest = lookup es q in if equal k q then some v else rest

module _ {V : Type 0} where
  -- Every entry is one of the map `f`.
  abbrev pub AreIn : (Bytes → Option V) → List (Bytes × V) → Type 0
  AreIn f [] = Unit
  AreIn f ((k, v) ∷ es) = (f k ≡ some v) × AreIn f es

  -- No key comes twice.
  abbrev pub AreOnce : List (Bytes × V) → Type 0
  AreOnce [] = Unit
  AreOnce ((k, v) ∷ es) = (lookup es k ≡ none) × AreOnce es

-- In a state that is `IsGood`, `view` is what the table maps each key to.
pub record IsTable {V : Type 0} (T : StringHashtable V) : Type 1 where
  pub IsGood : T.State → Type 0
  pub view : T.State → Bytes → Option V
  pub get-view : (t : T.State) (k : Bytes) → IsGood t → T.get t (some k) ≡ ok (view t k)
  pub insert-view :
      (t : T.State) (k : Bytes) (v : V)
      → IsGood t
      → (t' : T.State) × (T.insert t (some k) v ≡ ok (is_none (view t k), t'))
        × IsGood t'
        × ((q : Bytes) → view t' q ≡ (if equal k q then some (or_value (view t k) v) else view t q))
        × (T.size t' ≡ T.size t + (if is_none (view t k) then 1 else 0))
  pub update-view :
      (t : T.State) (k : Bytes) (v : V)
      → IsGood t
      → (t' : T.State) × (T.update t (some k) v ≡ ok (view t k, t'))
        × IsGood t'
        × ((q : Bytes)
            → view t' q
              ≡ (if equal k q then (if is_none (view t k) then none else some v) else view t q))
        × (T.size t' ≡ T.size t)
  pub remove-view :
      (t : T.State) (k : Bytes)
      → IsGood t
      → (t' : T.State) × (T.remove t (some k) ≡ ok (view t k, t'))
        × IsGood t'
        × ((q : Bytes) → view t' q ≡ (if equal k q then none else view t q))
        × (T.size t' ≡ T.size t - (if is_none (view t k) then 0 else 1))
  -- Without a key, and with no bound below the size, the entries are all that the table has, once.
  pub entries-view :
      (t : T.State) (n : ℕ)
      → IsGood t
      → T.size t ≤ n
      → (es : List (Bytes × V)) × (T.entries t none n ≡ ok es)
        × (length es ≡ T.size t)
        × ((q : Bytes) → lookup es q ≡ view t q)
        × AreOnce es
  -- From a key that is not there come no entries, and from one that is there come it, and then at most
  -- so many others, each once.
  pub entries-none :
      (t : T.State) (k : Bytes) (n : ℕ)
      → IsGood t
      → view t k ≡ none
      → T.entries t (some k) n ≡ ok []
  pub entries-some :
      (t : T.State) (k : Bytes) (v : V) (n : ℕ)
      → IsGood t
      → view t k ≡ some v
      → (es : List (Bytes × V)) × (T.entries t (some k) (suc n) ≡ ok ((k, v) ∷ es))
        × (length es ≤ n)
        × AreIn (view t) es
        × AreOnce ((k, v) ∷ es)
