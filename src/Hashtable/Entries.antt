-- ===== src/Hashtable/Entries.antt =====
-- The entries from a key on.
use ycsb_c_copy.HashString.{HashString, set_value, ◌=s=◌, =s=_iff}
use ycsb_c_copy.HashString.Sdbm.{wrapped_lem}
use ycsb_c_copy.Hashtable.Lookup.{view}
use ycsb_c_copy.Hashtable.Nodes.{IsDistinct, find_congr}
use ycsb_c_copy.Hashtable.Wrapped.{AreWrapped, pairs, lookup-entries}
use ycsb_c_copy.Hashtable.{Hashtable, find, from}
use ycsb_c_copy.Prelude.{
  ℕ, zero, suc, ◌≤◌, ◌≡◌, refl, sym, ap, ◌∙◌, List, [], ◌∷◌, Option, none, some, Bytes, length,
  take, equal_iff, arith, Bool-cases, inl, inr,
}
use ycsb_c_copy.StringHashtable.{AreIn, AreOnce}

module _ {V : Type 0} where
  AreIn-more :
      (f g : Bytes → Option V) (es : List (Bytes × V))
      → ((q : Bytes) (v : V) → f q ≡ some v → g q ≡ some v)
      → AreIn f es
      → AreIn g es
  AreIn-more f g [] more h = tt
  AreIn-more f g ((k, v) ∷ es) more (h, hs) = (more k v h, AreIn-more f g es more hs)

  AreIn-view : (t : Hashtable V) → IsDistinct t → AreWrapped t → AreIn (view t) (pairs t)
  unfolding view find
  AreIn-view [] d w = tt
  AreIn-view ((k, v) ∷ t) (fresh, d) (wrapped, w) = (
    rw (sym wrapped) (ground (arith, =s=_iff k k)),
    AreIn-more (view t) (view ((k, v) ∷ t)) (pairs t)
        (λ q u at. elim (Bool-cases (k =s= set_value q)) [
          | inl same ↦ absurd (ground (arith, find_congr k (set_value q) t same))
          | inr other ↦ rw other at
        ])
        (AreIn-view t d w),
  )

  AreIn-take :
      (f : Bytes → Option V) (n : ℕ) (t : Hashtable V)
      → AreIn f (pairs t)
      → AreIn f (pairs (take n t))
  AreIn-take f zero t h = tt
  AreIn-take f (suc n) [] h = tt
  AreIn-take f (suc n) (x ∷ t) (h, hs) = (h, AreIn-take f n t hs)

  find-take-none :
      (s : HashString) (n : ℕ) (t : Hashtable V) → find s t ≡ none → find s (take n t) ≡ none
  unfolding find
  find-take-none s zero t h = refl
  find-take-none s (suc n) [] h = refl
  find-take-none s (suc n) ((k, v) ∷ t) h = ground (arith, find-take-none s n t)

  take-IsDistinct : (n : ℕ) (t : Hashtable V) → IsDistinct t → IsDistinct (take n t)
  take-IsDistinct zero t h = tt
  take-IsDistinct (suc n) [] h = tt
  take-IsDistinct (suc n) ((k, v) ∷ t) (h, hs) = (find-take-none k n t h, take-IsDistinct n t hs)

  take-AreWrapped : (n : ℕ) (t : Hashtable V) → AreWrapped t → AreWrapped (take n t)
  take-AreWrapped zero t h = tt
  take-AreWrapped (suc n) [] h = tt
  take-AreWrapped (suc n) ((k, v) ∷ t) (h, hs) = (h, take-AreWrapped n t hs)

  pub AreOnce-pairs : (t : Hashtable V) → IsDistinct t → AreWrapped t → AreOnce (pairs t)
  unfolding view
  AreOnce-pairs [] d w = tt
  AreOnce-pairs ((k, v) ∷ t) (fresh, d) (wrapped, w) =
      (lookup-entries t k.value w ∙ ap (λ x. find x t) (sym wrapped) ∙ fresh, AreOnce-pairs t d w)

  length-take : (n : ℕ) (t : Hashtable V) → length (pairs (take n t)) ≤ n
  length-take zero t = omega arith
  length-take (suc n) [] = omega arith
  length-take (suc n) (x ∷ t) = omega (arith, length-take n t)

  -- What follows a key that the table has.
  from-some :
      (f : Bytes → Option V) (t : Hashtable V) (k : Bytes) (v : V)
      → IsDistinct t
      → AreWrapped t
      → AreIn f (pairs t)
      → view t k ≡ some v
      → (u : Hashtable V) × (from (set_value k) t ≡ (set_value k, v) ∷ u)
        × IsDistinct ((set_value k, v) ∷ u)
        × AreWrapped u
        × AreIn f (pairs u)
  unfolding view find from
  from-some f [] k v d w members at = cc
  from-some f ((l, x) ∷ t) k v (fresh, d) (wrapped, w) (h, hs) at =
      elim (Bool-cases (l =s= set_value k)) [
        | inl same ↦
            let same_key : l.value ≡ k =
              (equal_iff l.value k).0 (
                sym (wrapped_lem l.value k).1 ∙ ap (λ y. y =s= set_value k) (sym wrapped) ∙ same) in
            let is_l : l ≡ set_value k = wrapped ∙ ap set_value same_key in
            let is_x : x ≡ v = cc (rw same at at) in
            (
              t,
              rw same (ap (λ y. (y, x) ∷ t) is_l ∙ ap (λ y. (set_value k, y) ∷ t) is_x),
              (ap (λ y. find y t) (sym is_l) ∙ fresh, d),
              w,
              hs,
            )
        | inr other ↦
            let (u, e, d', w', m) = from-some f t k v d w hs (rw other at at) in
            (u, rw other e, d', w', m)
      ]

  from-none : (t : Hashtable V) (s : HashString) → find s t ≡ none → from s t ≡ []
  unfolding find from
  from-none [] s h = refl
  from-none ((l, x) ∷ t) s h = elim (Bool-cases (l =s= s)) [
    | inl same ↦ absurd (ground arith)
    | inr other ↦ rw other (from-none t s (rw other at h))
  ]

  abbrev pub listed : ℕ → HashString → Hashtable V → List (Bytes × V)
  listed n s t = pairs (take n (from s t))

  pub listed-none :
      (t : Hashtable V) (k : Bytes) (n : ℕ) → view t k ≡ none → listed n (set_value k) t ≡ []
  unfolding view
  listed-none t k zero e = refl
  listed-none t k (suc n) e = ap (λ u. pairs (take (suc n) u)) (from-none t (set_value k) e)

  pub listed-some :
      (t : Hashtable V) (k : Bytes) (v : V) (n : ℕ)
      → IsDistinct t
      → AreWrapped t
      → view t k ≡ some v
      → (es : List (Bytes × V)) × (listed (suc n) (set_value k) t ≡ (k, v) ∷ es)
        × (length es ≤ n)
        × AreIn (view t) es
        × AreOnce ((k, v) ∷ es)
  unfolding set_value
  listed-some t k v n d w at =
      let (u, e, d', w', members) = from-some (view t) t k v d w (AreIn-view t d w) at in
      (
        pairs (take n u),
        ap (λ x. pairs (take (suc n) x)) e,
        length-take n u,
        AreIn-take (view t) n u members,
        AreOnce-pairs ((set_value k, v) ∷ take n u)
            (take-IsDistinct (suc n) ((set_value k, v) ∷ u) d')
            (take-AreWrapped (suc n) ((set_value k, v) ∷ u) (refl, w')),
      )
