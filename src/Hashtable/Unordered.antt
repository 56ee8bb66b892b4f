-- ===== src/Hashtable/Unordered.antt =====
-- Tables up to the order of their nodes: what a table maps its keys to is all that is left.
use mathlib.Core.Path.{fun_ext}
use mathlib.Core.HLevel.{Π_set, Π_prop}
use mathlib.Core.Option
use mathlib.Core.Quot
use mathlib.Core.Quot.{Quot, Quot-set}
use ycsb_c_copy.HashString.{HashString, set_value, ◌=s=◌, =s=_iff}
use ycsb_c_copy.Hashtable.Lookup.{view, Writes, insert-Writes, update-Writes, remove-Writes}
use ycsb_c_copy.Hashtable.Nodes.{find-erase, find_congr, erase-IsDistinct}
use ycsb_c_copy.Hashtable.Order.{Reorders, Reorders-refl, nil, cons, swap, trans, find-Reorders}
use ycsb_c_copy.Hashtable.Table.{IsGood}
use ycsb_c_copy.Hashtable.Wrapped.{
  AreWrapped, erase-AreWrapped, Leaves, insert-Leaves, update-Leaves, remove-Leaves,
}
use ycsb_c_copy.Hashtable.{Hashtable, find, erase, insert, update, remove}
use ycsb_c_copy.Run.{Run, ok}
use ycsb_c_copy.StringHashtable.{is_none, or_value}
use ycsb_c_copy.Prelude.{
  ℕ, equal, ◌≡◌, refl, sym, ap, ◌∙◌, subst, [], ◌∷◌, Option, none, some, if◌then◌else◌, Bytes,
  arith, Bool-cases, inl, inr,
}

module _ {V : Type 0} where
  -- A node that is found can be put first.
  to_front :
      (s : HashString) (v : V) (u : Hashtable V)
      → s ≡ set_value s.value
      → AreWrapped u
      → find s u ≡ some v
      → Reorders ((s, v) ∷ erase s u) u
  unfolding find erase
  to_front s v [] w h at = cc
  to_front s v ((k, x) ∷ u) w h at = elim (Bool-cases (k =s= s)) [
    | inl same ↦
        let is_k : s ≡ k = w ∙ ap set_value (sym ((=s=_iff k s).0 same).1) ∙ sym h.0 in
        let is_x : v ≡ x = cc (rw same at at) in
        rw same (
          subst (λ y. Reorders ((s, v) ∷ u) ((y, x) ∷ u)) is_k
            (subst (λ y. Reorders ((s, v) ∷ u) ((s, y) ∷ u)) is_x (Reorders-refl ((s, v) ∷ u))))
    | inr other ↦ rw other (
        trans (swap (s, v) (k, x) (erase s u))
          (cons (k, x) (to_front s v u w h.1 (rw other at at))))
  ]

  head_found :
      (k : HashString) (v : V) (t : Hashtable V)
      → k ≡ set_value k.value
      → view ((k, v) ∷ t) k.value ≡ some v
  unfolding view find
  head_found k v t w = rw (sym w) (ground (arith, =s=_iff k k))

  -- Tables that map every key alike have the same nodes.
  from_view :
      (t u : Hashtable V) → IsGood t → IsGood u → ((q : Bytes) → view t q ≡ view u q) → Reorders t u
  unfolding view find
  from_view [] [] good good' same = nil
  from_view [] ((k, x) ∷ u) good (d, w) same =
      let none_is_some : ◌≡◌ {A = Option V} none (some x) = same k.value ∙ head_found k x u w.0 in
      absurd (cc)
  from_view ((k, v) ∷ t) u ((fresh, d), (w, ws)) (d', w') same =
      let at : find k u ≡ some v =
        ap (λ y. find y u) w ∙ (sym (same k.value) ∙ head_found k v t w) in
      let rest : (q : Bytes) → view t q ≡ view (erase k u) q = λ q.
        elim (Bool-cases (k =s= set_value q)) [
          | inl e ↦
              sym (find_congr k (set_value q) t e)
              ∙ (fresh ∙ sym (find-erase k (set_value q) u d' ∙ rw e))
          | inr e ↦ (rw e at (same q)) ∙ sym (find-erase k (set_value q) u d' ∙ rw e)
        ] in
      trans
        (cons (k, v)
          (from_view t (erase k u) (d, ws) (erase-IsDistinct k u d', erase-AreWrapped k u w') rest))
        (to_front k v u w w' at)

-- The tables whose keys are distinct and wrapped.
abbrev pub GoodTable : Type 0 → Type 0
GoodTable V = (t : Hashtable V) × IsGood t

abbrev pub UnorderedTable : Type 0 → Type 0
UnorderedTable V = Quot (λ (t u : GoodTable V). Reorders t.0 u.0)

pub view-Reorders : {V : Type 0} → (t u : GoodTable V) → Reorders t.0 u.0 → view t.0 ≡ view u.0
unfolding view
view-Reorders t u r = fun_ext (λ q. sym ((find-Reorders r t.1.0).1 (set_value q)))

module _ {V : Type 0} (values : IsSet V) where
  -- What a table maps a text to, in whichever order its nodes are.
  unfoldable pub view_of : UnorderedTable V → Bytes → Option V
  view_of = Quot.lift (Π_set (λ q. Option.is_set values)) (λ t. view t.0) view-Reorders

  -- Tables up to the order of their nodes are equal when they map every text alike.
  pub view_of-injective :
      (a b : UnorderedTable V) → ((q : Bytes) → view_of a q ≡ view_of b q) → a ≡ b
  unfolding view_of
  view_of-injective =
      Quot.ind (λ a. Π_prop (λ b. Π_prop (λ same. Quot-set _ _)))
        (λ t.
          Quot.ind (λ b. Π_prop (λ same. Quot-set _ _))
            (λ u same. Quot.sound (from_view t.0 u.0 t.1 u.1 same)))

-- Two calls return the same and leave the same nodes, in some order each.
pub SameCall : {A V : Type 0} → Run (A × Hashtable V) → Run (A × Hashtable V) → Type 0
SameCall {A} {V} r r' =
    (a : A) × (t u : Hashtable V) × (r ≡ ok (a, t)) × (r' ≡ ok (a, u)) × Reorders t u

module _ {V : Type 0} where
  write-SameCall :
      {A : Type 0} (t u : GoodTable V) (k : Bytes) (v v' : Option V) (n n' : ℕ) (a a' : A)
      (t' u' : Hashtable V) (r r' : Run (A × Hashtable V))
      → Reorders t.0 u.0
      → r ≡ ok (a, t')
      → r' ≡ ok (a', u')
      → Leaves r
      → Leaves r'
      → Writes t.0 k v n t'
      → Writes u.0 k v' n' u'
      → a ≡ a'
      → v ≡ v'
      → SameCall r r'
  unfolding SameCall
  write-SameCall t u k v v' n n' a a' t' u' r r' o e e' l l' w w' same_a same_v =
      let read : (q : Bytes) → view t' q ≡ view u' q = λ q.
        w.reads q
        ∙ (ap (λ x. if equal k q then x else view t.0 q) same_v
            ∙ (ap (λ m. if equal k q then v' else m q) (view-Reorders t u o) ∙ sym (w'.reads q))) in
      (
        a,
        t',
        u',
        e,
        e' ∙ ap (λ x. ok (x, u')) (sym same_a),
        from_view t' u' (w.distinct, subst Leaves e l) (w'.distinct, subst Leaves e' l') read,
      )

  -- The calls on a table do not depend on the order of its nodes.
  calls-Reorders :
      (t u : GoodTable V) (k : Bytes) (v : V)
      → Reorders t.0 u.0
      → SameCall (insert t.0 (some k) v) (insert u.0 (some k) v)
        × SameCall (update t.0 (some k) v) (update u.0 (some k) v)
        × SameCall (remove t.0 (some k)) (remove u.0 (some k))
  calls-Reorders t u k v o =
      let same : view t.0 k ≡ view u.0 k = ap (λ m. m k) (view-Reorders t u o) in
      let (i, ie, iw) = insert-Writes t.0 k v t.1.0 in
      let (i', ie', iw') = insert-Writes u.0 k v u.1.0 in
      let (p, pe, pw) = update-Writes t.0 k v t.1.0 in
      let (p', pe', pw') = update-Writes u.0 k v u.1.0 in
      let (m, me, mw) = remove-Writes t.0 k t.1.0 in
      let (m', me', mw') = remove-Writes u.0 k u.1.0 in
      (
        write-SameCall t u k _ _ _ _ _ _ i i' _ _ o ie ie' (insert-Leaves t.0 k v t.1.1)
            (insert-Leaves u.0 k v u.1.1) iw iw' (ap is_none same)
            (ap (λ x. some (or_value x v)) same),
        write-SameCall t u k _ _ _ _ _ _ p p' _ _ o pe pe' (update-Leaves t.0 k v t.1.1)
            (update-Leaves u.0 k v u.1.1) pw pw' same
            (ap (λ x. if is_none x then none else some v) same),
        write-SameCall t u k _ _ _ _ _ _ m m' _ _ o me me' (remove-Leaves t.0 k t.1.1)
            (remove-Leaves u.0 k u.1.1) mw mw' same refl,
      )

  -- Two good tables that map every text alike are equal up to the order of their nodes, and each of
  -- Insert, Update and Remove, on any key and value, returns the same on both and leaves nodes that
  -- are again the same up to their order.
  pub alike_tables :
      (t u : GoodTable V) (k : Bytes) (v : V)
      → ((q : Bytes) → view t.0 q ≡ view u.0 q)
      → ◌≡◌ {A = UnorderedTable V} (Quot.mk t) (Quot.mk u)
        × SameCall (insert t.0 (some k) v) (insert u.0 (some k) v)
        × SameCall (update t.0 (some k) v) (update u.0 (some k) v)
        × SameCall (remove t.0 (some k)) (remove u.0 (some k))
  alike_tables t u k v same =
      let o : Reorders t.0 u.0 = from_view t.0 u.0 t.1 u.1 same in
      let (i, p, m) = calls-Reorders t u k v o in (Quot.sound o, i, p, m)
