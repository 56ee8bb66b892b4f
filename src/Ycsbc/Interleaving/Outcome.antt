-- ===== src/Ycsbc/Interleaving/Outcome.antt =====
-- The loading phase in any order of the threads' calls: it does not get stuck, and what it loads.
use ycsb_c_copy.Client.{Client}
use ycsb_c_copy.Generator.Uniform
use ycsb_c_copy.HashtableDb.Fields.{AreTables}
use ycsb_c_copy.HashtableDb.Interface.{hashtable_db}
use ycsb_c_copy.HashtableDb.Refinement.{contents}
use ycsb_c_copy.HashtableDb.{Tables, KeyHashtable}
use ycsb_c_copy.Platform.{Platform}
use ycsb_c_copy.Prelude.Int.{rounds}
use ycsb_c_copy.Prelude.{
  ℕ, zero, suc, ◌+◌, ◌*◌, ◌≤◌, ◌<◌, ◌≡◌, refl, sym, ap, subst, List, [], ◌∷◌, ◌++◌, Bytes, arith,
  ltb, equal, Option-cases, inl, inr, Bool-cases, false,
}
use ycsb_c_copy.Ycsbc.Interleaving.Invariant.{Inv, IsGood, Acts-Inv, can_act}
use ycsb_c_copy.Ycsbc.Interleaving.Sums.{
  left_of, oks_of, flying_of, holds_of, calls_of, total, All, total-middle, All-front, All-back,
  total_holds-le, total-started,
}
use ycsb_c_copy.Ycsbc.Interleaving.{
  Thread, idle, drawn, built, Acts, draws, builds, inserts, Step, step, Steps, none_yet, next,
  started,
}
use ycsb_c_copy.Ycsbc.Loading.{CanLoad, IsLoaded}
use ycsb_c_copy.Ycsbc.RecordKeys.{record_key}

Acts-calls :
    (𝒫 : Platform) (𝒯 : Tables) {c c' : Client 𝒫 (hashtable_db 𝒯)} {t t' : Thread}
    → Acts 𝒫 (hashtable_db 𝒯) c t c' t'
    → calls_of t ≡ calls_of t' + 1
Acts-calls 𝒫 𝒯 (draws c n oks key w e) = omega arith
Acts-calls 𝒫 𝒯 (builds c n oks key es w e) = omega arith
Acts-calls 𝒫 𝒯 (inserts c n oks key es code db e) = omega arith

-- The first thread that has a call to make.
first_ready :
    (ts : List Thread)
    → 0 < total calls_of ts
    → (before after : List Thread) × (t : Thread) × (ts ≡ before ++ t ∷ after) × (0 < calls_of t)
first_ready [] h = absurd (omega arith)
first_ready (t ∷ ts) h = elim (Bool-cases (ltb 0 (calls_of t))) [
  | inl ready ↦ ([], ts, t, refl, ground arith)
  | inr none_left ↦
      let (before, after, u, e, ready) = first_ready ts (ground arith) in
      (t ∷ before, after, u, ap (◌∷◌ t) e, ready)
]

module _ (𝒫 : Platform) (can : Uniform.DrawsWithin 𝒫) (𝒯 : Tables) (tables : AreTables 𝒯) where
  module _ {table : Bytes} {fields s N : ℕ} {first : KeyHashtable 𝒯} where
    -- The place of a thread in the list does not matter.
    regrouped :
        (c : Client 𝒫 (hashtable_db 𝒯)) (ts us : List Thread)
        → ((f : Thread → ℕ) → total f us ≡ total f ts)
        → (((P : Thread → Type 0) → All P ts → All P us))
        → Inv 𝒫 can 𝒯 tables table fields s N first c ts
        → Inv 𝒫 can 𝒯 tables table fields s N first c us
    regrouped c ts us sums all h = record {
      same_table = h.same_table;
      same_fields = h.same_fields;
      named = h.named;
      fields_fit = h.fields_fit;
      ordered = h.ordered;
      room = h.room;
      small = h.small;
      fill = h.fill;
      valid = h.valid;
      begun = omega (arith, h.begun, sums left_of);
      since = h.since;
      counts = omega (arith, h.counts, sums left_of, sums oks_of, sums flying_of);
      good = all _ h.good;
      taken = λ j lo hi. rw (sums (holds_of table (record_key table j))) (h.taken j lo hi);
      loaded = h.loaded;
      others = h.others;
    }

    Inv-front :
        (c : Client 𝒫 (hashtable_db 𝒯)) (before after : List Thread) (t : Thread)
        → Inv 𝒫 can 𝒯 tables table fields s N first c (before ++ t ∷ after)
        → Inv 𝒫 can 𝒯 tables table fields s N first c (t ∷ (before ++ after))
    Inv-front c before after t =
        regrouped c _ _ (λ f. sym (total-middle f before after t)) (λ P. All-front P before after t)

    Inv-back :
        (c : Client 𝒫 (hashtable_db 𝒯)) (before after : List Thread) (t : Thread)
        → Inv 𝒫 can 𝒯 tables table fields s N first c (t ∷ (before ++ after))
        → Inv 𝒫 can 𝒯 tables table fields s N first c (before ++ t ∷ after)
    Inv-back c before after t =
        regrouped c _ _ (λ f. total-middle f before after t) (λ P. All-back P before after t)

    Step-Inv :
        {c c' : Client 𝒫 (hashtable_db 𝒯)} {ts ts' : List Thread}
        → Step 𝒫 (hashtable_db 𝒯) c ts c' ts'
        → Inv 𝒫 can 𝒯 tables table fields s N first c ts
        → Inv 𝒫 can 𝒯 tables table fields s N first c' ts'
    Step-Inv {c} {c'} (step before after t t' e e' acts) h =
        subst (Inv 𝒫 can 𝒯 tables table fields s N first c') (sym e') (
          Inv-back c' before after t' (
            Acts-Inv 𝒫 can 𝒯 tables table fields s N first (before ++ after) acts (
              Inv-front c before after t
                (subst (Inv 𝒫 can 𝒯 tables table fields s N first c) e h))))

    Steps-Inv :
        {c : Client 𝒫 (hashtable_db 𝒯)} {ts : List Thread} {c' : Client 𝒫 (hashtable_db 𝒯)}
        {ts' : List Thread}
        → Steps 𝒫 (hashtable_db 𝒯) c ts c' ts'
        → Inv 𝒫 can 𝒯 tables table fields s N first c ts
        → Inv 𝒫 can 𝒯 tables table fields s N first c' ts'
    Steps-Inv none_yet h = h
    Steps-Inv (next steps one) h = Step-Inv one (Steps-Inv steps h)

  none_held : (table q : Bytes) (k share : ℕ) → total (holds_of table q) (started k share) ≡ 0
  none_held table q zero share = refl
  none_held table q (suc k) share = omega (arith, none_held table q k share)

  started-IsGood : (s counter fields k share : ℕ) → All (IsGood s counter fields) (started k share)
  started-IsGood s counter fields zero share = tt
  started-IsGood s counter fields (suc k) share = (tt, started-IsGood s counter fields k share)

  start-Inv :
      (s k share : ℕ) (c : Client 𝒫 (hashtable_db 𝒯))
      → CanLoad 𝒫 can 𝒯 tables s (k * share) c
      → Inv 𝒫 can 𝒯 tables c.world.workload.table_name
          (rounds c.world.workload.field_count)
          s
          (k * share)
          c.db
          c
          (started k share)
  start-Inv s k share c h =
      let (lefts, oks, flying) = total-started k share in
      let table = c.world.workload.table_name in
      record {
        same_table = refl;
        same_fields = refl;
        named = h.named;
        fields_fit = h.fields_fit;
        ordered = h.ordered;
        room = h.room;
        small = h.small;
        fill = h.fill;
        valid = h.valid;
        begun = omega (arith, h.counter_is, lefts);
        since = omega (arith, h.counter_is);
        counts = omega (arith, lefts, oks, flying);
        good = started-IsGood s _ _ k share;
        taken = λ j lo hi.
            rw (none_held table (record_key table j) k share, h.absent j lo hi)
              (ground (arith, h.counter_is, lo));
        loaded = λ j lo hi r got. cc (h.absent j lo hi);
        others = λ q ne. refl;
      }

  -- Loading with `k` threads of `share` rounds each, ordered inserts, and a database that has none of
  -- the next keys, with the calls of the threads in any order: while a thread has a call to make, some
  -- thread can make its next one, and then one call fewer is to be made.
  pub interleaved-Steps :
      (s k share : ℕ) (c c' : Client 𝒫 (hashtable_db 𝒯)) (ts : List Thread)
      → CanLoad 𝒫 can 𝒯 tables s (k * share) c
      → Steps 𝒫 (hashtable_db 𝒯) c (started k share) c' ts
      → 0 < total calls_of ts
      → (c'' : Client 𝒫 (hashtable_db 𝒯)) × (ts' : List Thread) × Step 𝒫
          (hashtable_db 𝒯)
          c'
          ts
          c''
          ts'
        × (total calls_of ts ≡ total calls_of ts' + 1)
  interleaved-Steps s k share c c' ts h steps some_left =
      let inv = Steps-Inv steps (start-Inv s k share c h) in
      let (before, after, t, e, ready) = first_ready ts some_left in
      let at_front = Inv-front c' before after t (subst (Inv 𝒫 can 𝒯 tables _ _ _ _ _ c') e inv) in
      let (c'', t', acts) =
        can_act 𝒫 can 𝒯 tables _ _ _ _ _ c' t (before ++ after) ready at_front in
      (
        c'',
        before ++ t' ∷ after,
        step before after t t' e refl acts,
        omega (
          arith,
          ap (total calls_of) e,
          total-middle calls_of before after t,
          total-middle calls_of before after t',
          Acts-calls 𝒫 𝒯 acts,
        ),
      )

  -- From every state that the threads reach they can end.
  pub can_finish :
      (n s k share : ℕ) (c c' : Client 𝒫 (hashtable_db 𝒯)) (ts : List Thread)
      → CanLoad 𝒫 can 𝒯 tables s (k * share) c
      → Steps 𝒫 (hashtable_db 𝒯) c (started k share) c' ts
      → total calls_of ts ≡ n
      → (c'' : Client 𝒫 (hashtable_db 𝒯)) × (ts' : List Thread) × Steps 𝒫
          (hashtable_db 𝒯)
          c
          (started k share)
          c''
          ts'
        × (total calls_of ts' ≡ 0)
  can_finish zero s k share c c' ts h steps left = (c', ts, steps, left)
  can_finish (suc n) s k share c c' ts h steps left =
      let (c'', ts', one, fewer) = interleaved-Steps s k share c c' ts h steps (omega arith) in
      can_finish n s k share c c'' ts' h (next steps one) (omega arith)

  quiet :
      (ts : List Thread) → total calls_of ts ≡ 0 → (total left_of ts ≡ 0) × (total flying_of ts ≡ 0)
  quiet [] h = (refl, refl)
  quiet (idle n oks ∷ ts) h = let (a, b) = quiet ts (omega arith) in (omega arith, omega arith)
  quiet (drawn n oks key ∷ ts) h = absurd (omega arith)
  quiet (built n oks key es ∷ ts) h = absurd (omega arith)

  -- The same threads, with their calls in any order, when none is left to be made: all rounds of all
  -- threads are counted as done, the keys in order from number `s` on are loaded, each with all its
  -- fields, and no other key is written.
  pub interleaved-Loaded :
      (s k share : ℕ) (c c' : Client 𝒫 (hashtable_db 𝒯)) (ts : List Thread)
      → CanLoad 𝒫 can 𝒯 tables s (k * share) c
      → Steps 𝒫 (hashtable_db 𝒯) c (started k share) c' ts
      → total calls_of ts ≡ 0
      → (total oks_of ts ≡ k * share)
        × ((j : ℕ)
            → s ≤ j
            → j < s + k * share
            → IsLoaded
                (rounds c.world.workload.field_count)
                (contents 𝒯 tables c'.db (record_key c.world.workload.table_name j)))
        × ((q : Bytes)
            → ((j : ℕ)
                → s ≤ j
                → j < s + k * share
                → equal (record_key c.world.workload.table_name j) q ≡ false)
            → contents 𝒯 tables c'.db q ≡ contents 𝒯 tables c.db q)
  interleaved-Loaded s k share c c' ts h steps ended =
      let inv = Steps-Inv steps (start-Inv s k share c h) in
      let (no_rounds, no_flights) = quiet ts ended in
      let table = c.world.workload.table_name in
      (
        omega (arith, inv.counts),
        λ j lo hi. elim (Option-cases (contents 𝒯 tables c'.db (record_key table j))) [
          | inl e ↦
              let taken = rw e at (inv.taken j lo hi) in
              absurd
                (ground (arith, taken, total_holds-le table (record_key table j) ts, inv.begun))
          | inr (r, e) ↦ rw e (inv.loaded j lo hi r e)
        ],
        inv.others,
      )
