-- ===== src/Hashtable/Order.antt =====
-- The order in which a container iterates over its nodes, which the library leaves open, changes no
-- lookup.
use ycsb_c_copy.HashString.{HashString, ◌=s=◌, =s=_iff}
use ycsb_c_copy.Hashtable.Nodes.{IsDistinct, =s=_symm}
use ycsb_c_copy.Hashtable.Wrapped.{AreWrapped}
use ycsb_c_copy.Hashtable.{Hashtable, find}
use ycsb_c_copy.Prelude.{
  suc, ◌≡◌, refl, ◌∙◌, ap, [], ◌∷◌, some, if◌then◌else◌, length, arith, Bool-cases, inl, inr,
}

-- The same nodes in another order.
pub data Reorders {V : Type 0} : Hashtable V → Hashtable V → Type 0 where
  nil : Reorders [] []
  cons : (e : HashString × V) {t u : Hashtable V} → Reorders t u → Reorders (e ∷ t) (e ∷ u)
  swap : (e f : HashString × V) (t : Hashtable V) → Reorders (e ∷ f ∷ t) (f ∷ e ∷ t)
  trans : {t u w : Hashtable V} → Reorders t u → Reorders u w → Reorders t w

module _ {V : Type 0} where
  pub Reorders-refl : (t : Hashtable V) → Reorders t t
  Reorders-refl [] = nil
  Reorders-refl (e ∷ t) = cons e (Reorders-refl t)

  pub length-Reorders : {t u : Hashtable V} → Reorders t u → length u ≡ length t
  length-Reorders nil = refl
  length-Reorders (cons e r) = ap suc (length-Reorders r)
  length-Reorders (swap e f t) = refl
  length-Reorders (trans r s) = length-Reorders s ∙ length-Reorders r

  pub AreWrapped-Reorders : {t u : Hashtable V} → Reorders t u → AreWrapped t → AreWrapped u
  AreWrapped-Reorders nil h = tt
  AreWrapped-Reorders (cons (k, v) r) h = (h.0, AreWrapped-Reorders r h.1)
  AreWrapped-Reorders (swap (k, v) (l, w) t) (h, h') = (h'.0, (h, h'.1))
  AreWrapped-Reorders (trans r s) h = AreWrapped-Reorders s (AreWrapped-Reorders r h)

  -- Nodes with distinct keys keep them, and every lookup its answer, in any other order.
  pub find-Reorders :
      {t u : Hashtable V}
      → Reorders t u
      → IsDistinct t
      → IsDistinct u × ((q : HashString) → find q u ≡ find q t)
  unfolding find
  find-Reorders nil h = (tt, λ q. refl)
  find-Reorders (cons (k, v) r) (h, d) =
      let (d', same) = find-Reorders r d in
      ((same k ∙ h, d'), λ q. ap (λ x. if k =s= q then some v else x) (same q))
  find-Reorders (swap (k, v) (l, w) t) (h, h') = elim (Bool-cases (l =s= k)) [
    | inl e ↦ absurd (ground (arith, h))
    | inr e ↦ (
      (rw (=s=_symm k l, e) h'.0, (rw e at h, h'.1)),
      λ q. ground (arith, =s=_iff l k, =s=_iff l q, =s=_iff k q),
    )
  ]
  find-Reorders (trans r s) h =
      let (d, same) = find-Reorders r h in
      let (d', same') = find-Reorders s d in (d', λ q. same' q ∙ same q)
