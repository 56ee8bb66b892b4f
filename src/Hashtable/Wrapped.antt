-- ===== src/Hashtable/Wrapped.antt =====
-- Every key of a table has the hash of its text, and what the calls leave still does.
use ycsb_c_copy.HashString.{HashString, set_value, wrap, ◌=s=◌}
use ycsb_c_copy.HashString.Sdbm.{wrapped_lem}
use ycsb_c_copy.Hashtable.Lookup.{view}
use ycsb_c_copy.Hashtable.{Hashtable, find, assign, erase, insert, update, remove}
use ycsb_c_copy.Prelude.{
  ℕ, zero, suc, ◌≤◌, ◌≡◌, refl, ap, ◌∙◌, List, [], ◌∷◌, map, some, Bytes, length, take, equal,
  arith, Option-cases, Bool-cases, inl, inr,
}
use ycsb_c_copy.Run.{Run, ok, fault}
use ycsb_c_copy.StringHashtable.{lookup}

module _ {V : Type 0} where
  -- Every key has the hash of its text.
  abbrev pub AreWrapped : Hashtable V → Type 0
  AreWrapped [] = Unit
  AreWrapped ((k, v) ∷ t) = (k ≡ set_value k.value) × AreWrapped t

  assign-AreWrapped :
      (s : HashString) (v : V) (t : Hashtable V) → AreWrapped t → AreWrapped (assign s v t)
  unfolding assign
  assign-AreWrapped s v [] h = tt
  assign-AreWrapped s v ((k, w) ∷ t) h = elim (Bool-cases (k =s= s)) [
    | inl e ↦ rw e h
    | inr e ↦ rw e ((h.0, assign-AreWrapped s v t h.1))
  ]

  pub erase-AreWrapped : (s : HashString) (t : Hashtable V) → AreWrapped t → AreWrapped (erase s t)
  unfolding erase
  erase-AreWrapped s [] h = tt
  erase-AreWrapped s ((k, w) ∷ t) h = elim (Bool-cases (k =s= s)) [
    | inl e ↦ rw e h.1
    | inr e ↦ rw e ((h.0, erase-AreWrapped s t h.1))
  ]

  -- The table that a call leaves.
  abbrev pub Leaves : {A : Type 0} → Run (A × Hashtable V) → Type 0
  Leaves (ok (a, t)) = AreWrapped t
  Leaves (fault e) = Unit

  pub insert-Leaves :
      (t : Hashtable V) (k : Bytes) (v : V) → AreWrapped t → Leaves (insert t (some k) v)
  unfolding insert wrap set_value
  insert-Leaves t k v h = elim (Option-cases (find (set_value k) t)) [
    | inl e ↦ rw (Leaves, e) ((refl, h))
    | inr (old, e) ↦ rw (Leaves, e) h
  ]

  pub update-Leaves :
      (t : Hashtable V) (k : Bytes) (v : V) → AreWrapped t → Leaves (update t (some k) v)
  unfolding update wrap
  update-Leaves t k v h = elim (Option-cases (find (set_value k) t)) [
    | inl e ↦ rw (Leaves, e) h
    | inr (old, e) ↦ rw (Leaves, e) (assign-AreWrapped (set_value k) v t h)
  ]

  pub remove-Leaves : (t : Hashtable V) (k : Bytes) → AreWrapped t → Leaves (remove t (some k))
  unfolding remove wrap
  remove-Leaves t k h = elim (Option-cases (find (set_value k) t)) [
    | inl e ↦ rw (Leaves, e) h
    | inr (old, e) ↦ rw (Leaves, e) (erase-AreWrapped (set_value k) t h)
  ]

  pub lookup-entries :
      (t : Hashtable V) (q : Bytes)
      → AreWrapped t
      → lookup (map (λ e. (e.0.value, e.1)) t) q ≡ view t q
  unfolding view find
  lookup-entries [] q h = refl
  lookup-entries ((k, v) ∷ t) q h =
      let same : (k =s= set_value q) ≡ equal k.value q =
        ap (λ x. x =s= set_value q) h.0 ∙ (wrapped_lem k.value q).1 in
      rw (same, lookup-entries t q h.1)

  -- The loop of `Entries`.
  abbrev pub pairs : Hashtable V → List (Bytes × V)
  pairs t = map (λ e. (e.0.value, e.1)) t

  pub length-pairs : (t : Hashtable V) → length (pairs t) ≡ length t
  length-pairs [] = refl
  length-pairs (x ∷ t) = ap suc (length-pairs t)

  pub take_all : (n : ℕ) (t : Hashtable V) → length t ≤ n → take n t ≡ t
  take_all zero [] h = refl
  take_all (suc n) [] h = refl
  take_all zero (x ∷ t) h = absurd (omega (arith, h))
  take_all (suc n) (x ∷ t) h = ap (◌∷◌ x) (take_all n t (omega (arith, h)))
