-- ===== src/HashString/Sdbm.antt =====
-- What the hash computes, and that comparing the hashes first changes no comparison.
use ycsb_c_copy.HashString.{char_to_u64, sdbm_step, sdbm_from, sdbm_hash, set_value, ◌=s=◌}
use ycsb_c_copy.Prelude.{
  ℕ, ◌+◌, ◌*◌, ◌%◌, ◌^◌, ◌<◌, ◌≡◌, refl, ap, [], ◌∷◌, Bytes, equal, equal_iff, arith, Bool-cases,
  inl, inr,
}

-- A polynomial in 65599 over the signed bytes, modulo 2 ^ 64.
abbrev pub polynomial : ℕ → Bytes → ℕ
polynomial h [] = h
polynomial h (c ∷ cs) = polynomial ((65599 * h + char_to_u64 c) % 2 ^ 64) cs

sdbm_step_lem : (h c : ℕ) → h < 2 ^ 64 → sdbm_step h c ≡ (65599 * h + char_to_u64 c) % 2 ^ 64
unfolding sdbm_step
sdbm_step_lem h c lt = ground arith

sdbm_from-polynomial : (h : ℕ) (v : Bytes) → h < 2 ^ 64 → sdbm_from h v ≡ polynomial h v
unfolding sdbm_from
sdbm_from-polynomial h [] lt = refl
sdbm_from-polynomial h (c ∷ cs) lt =
    rw (sdbm_step_lem h c lt)
      (sdbm_from-polynomial ((65599 * h + char_to_u64 c) % 2 ^ 64) cs (omega arith))

-- The hash of a text is that polynomial of it, started at 0, and two wrapped texts compare equal
-- exactly when the texts are the same: comparing the hashes first never changes the answer.
pub wrapped_lem :
    (a b : Bytes)
    → ((set_value a).hash ≡ polynomial 0 a) × ((set_value a =s= set_value b) ≡ equal a b)
unfolding set_value ◌=s=◌ sdbm_hash
wrapped_lem a b = (
  sdbm_from-polynomial 0 a (omega arith),
  elim (Bool-cases (equal a b)) [
    | inl e ↦
        let f : a ≡ b = (equal_iff a b).0 e in
        let g : sdbm_from 0 a ≡ sdbm_from 0 b = ap (sdbm_from 0) f in ground arith
    | inr e ↦ ground arith
  ],
)
