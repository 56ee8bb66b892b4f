-- ===== src/Hashtable/Nodes.antt =====
-- The list of nodes of a table: lookups after writes, and distinct keys.
use ycsb_c_copy.HashString.{HashString, ◌=s=◌, =s=_iff}
use ycsb_c_copy.Hashtable.{Hashtable, find, assign, erase}
use ycsb_c_copy.Prelude.{
  ◌+◌, ◌≡◌, refl, true, false, [], ◌∷◌, none, some, if◌then◌else◌, length, arith, Bool-cases, inl,
  inr, ◌∙◌,
}

pub =s=_congr :
    (a b c : HashString) → (a =s= b) ≡ true → ((c =s= a) ≡ (c =s= b)) × ((a =s= c) ≡ (b =s= c))
=s=_congr a b c h = ground (arith, =s=_iff a b, =s=_iff c a, =s=_iff c b, =s=_iff a c, =s=_iff b c)

pub =s=_symm : (a b : HashString) → (a =s= b) ≡ (b =s= a)
=s=_symm a b = ground (arith, =s=_iff a b, =s=_iff b a)

module _ {V : Type 0} where
  -- No two nodes have equal keys.
  abbrev pub IsDistinct : Hashtable V → Type 0
  IsDistinct [] = Unit
  IsDistinct ((k, v) ∷ t) = (find k t ≡ none) × IsDistinct t

  pub find_congr : (a b : HashString) (t : Hashtable V) → (a =s= b) ≡ true → find a t ≡ find b t
  unfolding find
  find_congr a b [] h = refl
  find_congr a b ((k, v) ∷ t) h = rw ((=s=_congr a b k h).0) (rw (find_congr a b t h))

  pub find-assign :
      (s q : HashString) (v : V) (t : Hashtable V) (old : V)
      → find s t ≡ some old
      → find q (assign s v t) ≡ (if s =s= q then some v else find q t)
  unfolding find assign
  find-assign s q v [] old h = cc
  find-assign s q v ((k, w) ∷ t) old h =
      ground (arith, find-assign s q v t old, =s=_iff k s, =s=_iff k q, =s=_iff s q)

  pub find-erase :
      (s q : HashString) (t : Hashtable V)
      → IsDistinct t
      → find q (erase s t) ≡ (if s =s= q then none else find q t)
  unfolding find erase
  find-erase s q [] h = ground arith
  find-erase s q ((k, w) ∷ t) h =
      ground (arith, find-erase s q t h.1, find_congr k q t, =s=_iff k s, =s=_iff k q, =s=_iff s q)

  pub find-assign_other :
      (s q : HashString) (v : V) (t : Hashtable V)
      → (s =s= q) ≡ false
      → find q (assign s v t) ≡ find q t
  unfolding find assign
  find-assign_other s q v [] n = refl
  find-assign_other s q v ((k, w) ∷ t) n =
      ground (arith, find-assign_other s q v t n, =s=_iff k s, =s=_iff k q, =s=_iff s q)

  pub assign-IsDistinct :
      (s : HashString) (v : V) (t : Hashtable V) → IsDistinct t → IsDistinct (assign s v t)
  unfolding assign
  assign-IsDistinct s v [] h = tt
  assign-IsDistinct s v ((k, w) ∷ t) h = elim (Bool-cases (k =s= s)) [
    | inl e ↦ rw e h
    | inr e ↦
        rw e ((find-assign_other s k v t (rw (=s=_symm s k) e) ∙ h.0, assign-IsDistinct s v t h.1))
  ]

  pub find-erase-none :
      (s q : HashString) (t : Hashtable V) → find q t ≡ none → find q (erase s t) ≡ none
  unfolding find erase
  find-erase-none s q [] h = refl
  find-erase-none s q ((k, w) ∷ t) h = ground (arith, find-erase-none s q t)

  pub erase-IsDistinct : (s : HashString) (t : Hashtable V) → IsDistinct t → IsDistinct (erase s t)
  unfolding erase
  erase-IsDistinct s [] h = tt
  erase-IsDistinct s ((k, w) ∷ t) h = elim (Bool-cases (k =s= s)) [
    | inl e ↦ rw e h.1
    | inr e ↦ rw e ((find-erase-none s k t h.0, erase-IsDistinct s t h.1))
  ]

  pub length-assign : (s : HashString) (v : V) (t : Hashtable V) → length (assign s v t) ≡ length t
  unfolding assign
  length-assign s v [] = refl
  length-assign s v ((k, w) ∷ t) = ground (arith, length-assign s v t)

  pub length-erase :
      (s : HashString) (t : Hashtable V) (old : V)
      → find s t ≡ some old
      → length (erase s t) + 1 ≡ length t
  unfolding find erase
  length-erase s [] old h = cc
  length-erase s ((k, w) ∷ t) old h = ground (arith, length-erase s t old)
