-- ===== src/Ycsbc/Threads.antt =====
-- The loading phase of `main` with several threads, on the hash table database.
use native.Mathlib.Nat
use ycsb_c_copy.Client.{Client}
use ycsb_c_copy.Generator.Uniform
use ycsb_c_copy.HashtableDb.Interface.{hashtable_db}
use ycsb_c_copy.Platform.{Platform}
use ycsb_c_copy.Prelude.Int.{rounds, ℤ, pos}
use ycsb_c_copy.Prelude.{
  ℕ, zero, suc, ◌+◌, ◌*◌, ◌/◌, ◌%◌, ◌<◌, ◌≡◌, ◌≢◌, refl, sym, ◌∙◌, ap, true, false, arith, ltb,
  Bool-cases, inl, inr, equal, subst,
}
use ycsb_c_copy.Run.{ok, ◌>>=◌}
use ycsb_c_copy.Ycsbc.Loading.{CanLoad, Loaded, Loaded-none, fewer, delegate_client-Loaded}
use ycsb_c_copy.Ycsbc.RecordKeys.{record_key, equal-record_key}
use ycsb_c_copy.Ycsbc.{run_threads, phase, share_of}
use ycsb_c_copy.HashtableDb.{Tables}
use ycsb_c_copy.HashtableDb.Fields.{AreTables}

module _ (𝒫 : Platform) (draws : Uniform.DrawsWithin 𝒫) (𝒯 : Tables) (tables : AreTables 𝒯) where
  -- Two runs of loading, one after the other.
  Loaded-Loaded :
      (s n m : ℕ) (c c' c'' : Client 𝒫 (hashtable_db 𝒯))
      → CanLoad 𝒫 draws 𝒯 tables s (n + m) c
      → Loaded 𝒫 draws 𝒯 tables s n c c'
      → Loaded 𝒫 draws 𝒯 tables (s + n) m c' c''
      → Loaded 𝒫 draws 𝒯 tables s (n + m) c c''
  Loaded-Loaded s n m c c' c'' h one two =
      let table = c.world.workload.table_name in
      let apart : (i j : ℕ)
          → i < s + (n + m)
          → j < s + (n + m)
          → i ≢ j
          → equal (record_key table i) (record_key table j) ≡ false =
        λ i j hi hj.
          equal-record_key table i j h.named (omega (arith, h.room, h.small))
            (omega (arith, h.room, h.small)) in
      record {
        same_table = two.same_table ∙ one.same_table;
        same_fields = two.same_fields ∙ one.same_fields;
        loaded = λ j lo hi. elim (Bool-cases (ltb j (s + n))) [
          | inl early ↦
              let (r, es, at_j, fields, holds) = one.loaded j lo (ground arith) in
              (
                r,
                es,
                two.others (record_key table j) (λ i lo' hi'.
                      rw one.same_table (apart i j (omega arith) (omega arith) (ground arith)))
                    ∙ at_j,
                fields,
                holds,
              )
          | inr late ↦
              rw (one.same_table, one.same_fields) at (two.loaded j (ground arith) (omega arith))
        ];
        others = λ q ne.
            two.others q (λ j lo hi. rw one.same_table (ne j (omega arith) (omega arith)))
            ∙ one.others q (λ j lo hi. ne j (omega arith) (omega arith));
      }

  threads-Loaded :
      (fuel n s sum : ℕ) (share : ℤ) (c : Client 𝒫 (hashtable_db 𝒯))
      → CanLoad 𝒫 draws 𝒯 tables s (n * rounds share) c
      → (c' : Client 𝒫 (hashtable_db 𝒯)) × (run_threads 𝒫 (hashtable_db 𝒯) fuel n share true sum c
          ≡ ok (sum + n * rounds share, c'))
        × Loaded 𝒫 draws 𝒯 tables s (n * rounds share) c c'
  unfolding run_threads
  threads-Loaded fuel zero s sum share c h = (
    c,
    let e : 0 * rounds share ≡ 0 = Nat.zero-mul (rounds share) in ap (λ i. ok (i, c)) (omega arith),
    subst (λ i. Loaded 𝒫 draws 𝒯 tables s i c c) (sym (Nat.zero-mul (rounds share)))
        (Loaded-none 𝒫 draws 𝒯 tables s c),
  )
  threads-Loaded fuel (suc n) s sum share c h =
      let k = rounds share in
      let e : suc n * k ≡ k + n * k = Nat.suc-mul n k ∙ omega arith in
      let h1 = subst (λ i. CanLoad 𝒫 draws 𝒯 tables s i c) e h in
      let (c', run, can, first) =
        delegate_client-Loaded 𝒫 draws 𝒯 tables fuel s (n * k) share c h1 in
      let (c'', rest, others) = threads-Loaded fuel n (s + k) (sum + k) share c' can in
      (
        c'',
        rw (run, ◌>>=◌, rest) (ap (λ i. ok (i, c'')) (omega arith)),
        subst (λ i. Loaded 𝒫 draws 𝒯 tables s i c c'') (sym e)
            (Loaded-Loaded s k (n * k) c c' c'' h1 first others),
      )

  -- On the hash table database over any tables that keep the promise of lib/string_hashtable.h, the
  -- loading phase with `k` threads, for which there are `t` records to load, of ordered inserts
  -- into a database that has none of their keys: every thread takes t / k rounds and all of them are
  -- counted as done. The keys in order from `s` on are loaded, k * (t / k) in number, and no other key
  -- is written: t % k of the records that were asked for are missing.
  pub phase-Loaded :
      (fuel s t k : ℕ) (c : Client 𝒫 (hashtable_db 𝒯))
      → 0 < k
      → CanLoad 𝒫 draws 𝒯 tables s t c
      → (c' : Client 𝒫 (hashtable_db 𝒯)) × (phase 𝒫 (hashtable_db 𝒯) fuel (pos k) (pos t) true c
          ≡ ok (k * (t / k), c'))
        × Loaded 𝒫 draws 𝒯 tables s (k * (t / k)) c c'
        × (k * (t / k) + t % k ≡ t)
  unfolding phase share_of
  phase-Loaded fuel s t k c some_threads h =
      let whole : k * (t / k) + t % k ≡ t = Nat.div-add-mod t k in
      let (c', run, loaded) =
        threads-Loaded fuel k s 0 (pos (t / k)) c
          (fewer 𝒫 draws 𝒯 tables s s t (k * (t / k)) c refl (omega arith) h) in
      (c', run ∙ ap (λ i. ok (i, c')) (omega arith), loaded, whole)
