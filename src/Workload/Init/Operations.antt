-- ===== src/Workload/Init/Operations.antt =====
-- Which operations the workload draws.
use ycsb_c_copy.Generator.Discrete
use ycsb_c_copy.Generator.Discrete.{DiscreteGenerator, Weighs}
use ycsb_c_copy.Platform.{Platform}
use ycsb_c_copy.Prelude.{◌≡◌, ◌⊎◌, inl, inr, subst, sym, true, List, [], ◌∷◌, ◌++◌, Bool-cases}
use ycsb_c_copy.Workload.Init.{no_operations, add_if_positive, choose_operations}
use ycsb_c_copy.Workload.{
  Operation, insert, read, update, scan, read_modify_write, World, next_operation,
}
use ycsb_c_copy.Run.{ok, bind-eq-ok}

module _ (𝒫 : Platform) where
  Weighs-append :
      {V : Type 0} (v : V) (w : 𝒫.Double) (a b : List (V × 𝒫.Double))
      → Weighs 𝒫 v w (a ++ b)
      → Weighs 𝒫 v w a ⊎ Weighs 𝒫 v w b
  Weighs-append v w [] b m = inr m
  Weighs-append v w (e ∷ a) b (inl m) = inl (inl m)
  Weighs-append v w (e ∷ a) b (inr m) = elim (Weighs-append v w a b m) [
    | inl k ↦ inl (inr k)
    | inr k ↦ inr k
  ]

  abbrev Positive : 𝒫.Double → Type 0
  Positive w = 𝒫.less (𝒫.literal 0 1) w ≡ true

  add_if_positive-Weighs :
      (op v : Operation) (w p : 𝒫.Double) (g : DiscreteGenerator 𝒫 Operation)
      → Weighs 𝒫 v w (add_if_positive 𝒫 op p g).values
      → ((op ≡ v) × (p ≡ w) × Positive w) ⊎ Weighs 𝒫 v w g.values
  unfolding add_if_positive Discrete.add_value
  add_if_positive-Weighs op v w p g m = elim (Bool-cases (𝒫.less (𝒫.literal 0 1) p)) [
    | inl e ↦ elim (Weighs-append v w g.values ((op, p) ∷ []) (rw e at m)) [
      | inl old ↦ inr old
      | inr (inl (a, b)) ↦ inl (a, b, subst Positive b e)
      | inr (inr nothing) ↦ absurd nothing
    ]
    | inr e ↦ inr (rw e at m)
  ]

  -- The proportion that the properties give to an operation.
  abbrev pub proportion_of :
      𝒫.Double → 𝒫.Double → 𝒫.Double → 𝒫.Double → 𝒫.Double → Operation → 𝒫.Double
  proportion_of r u i s m read = r
  proportion_of r u i s m update = u
  proportion_of r u i s m insert = i
  proportion_of r u i s m scan = s
  proportion_of r u i s m read_modify_write = m

  module _ (r u i s m : 𝒫.Double) where
    -- Every value of a chooser has its operation's proportion, which is above 0.
    abbrev IsFair : DiscreteGenerator 𝒫 Operation → Type 0
    IsFair g =
        (v : Operation) (w : 𝒫.Double)
        → Weighs 𝒫 v w g.values
        → (proportion_of r u i s m v ≡ w) × Positive w

    add_if_positive-IsFair :
        (op : Operation) (g : DiscreteGenerator 𝒫 Operation)
        → IsFair g
        → IsFair (add_if_positive 𝒫 op (proportion_of r u i s m op) g)
    add_if_positive-IsFair op g fair v w h =
        elim (add_if_positive-Weighs op v w (proportion_of r u i s m op) g h) [
          | inl (a, b, c) ↦ (subst (λ x. proportion_of r u i s m x ≡ w) a b, c)
          | inr k ↦ fair v w k
        ]

    choose_operations-Weighs :
        (v : Operation) (w : 𝒫.Double)
        → Weighs 𝒫 v w (choose_operations 𝒫 r u i s m).values
        → (proportion_of r u i s m v ≡ w) × Positive w
    unfolding choose_operations
    choose_operations-Weighs = add_if_positive-IsFair read_modify_write _ (
        add_if_positive-IsFair scan _ (
          add_if_positive-IsFair insert _ (
            add_if_positive-IsFair update _
              (add_if_positive-IsFair read (no_operations 𝒫) (λ v w h. absurd h)))))

    -- `Init` gives the workload's chooser the operations whose proportion is above 0, and no others:
    -- as long as the chooser holds what `Init` put there, `NextOperation` returns an operation whose
    -- proportion is above 0 and leaves that so.
    pub next_operation-Positive :
        (w w' : World 𝒫) (o : Operation)
        → w.workload.op_chooser.values ≡ (choose_operations 𝒫 r u i s m).values
        → next_operation 𝒫 w ≡ ok (o, w')
        → Positive (proportion_of r u i s m o)
          × (w'.workload.op_chooser.values ≡ (choose_operations 𝒫 r u i s m).values)
    unfolding next_operation
    next_operation-Positive w w' o h run =
        let ((v, g, e), drawn, done) =
          bind-eq-ok (Discrete.next 𝒫 w.workload.op_chooser w.engine) _ run in
        let (weight, last_is, same, sum) =
          Discrete.next-Weighs 𝒫 w.workload.op_chooser g w.engine e v drawn in
        let (x, weighs) = weight in
        let (at, positive) = choose_operations-Weighs v x (subst (λ l. Weighs 𝒫 v x l) h weighs) in
        let drawn_is : v ≡ o = cc in
        (
          subst (λ y. Positive (proportion_of r u i s m y)) drawn_is
              (subst Positive (sym at) positive),
          cc,
        )
