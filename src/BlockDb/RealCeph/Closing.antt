-- ===== src/BlockDb/RealCeph/Closing.antt =====
-- The end of `RealCephDB`.
use ycsb_c_copy.BlockDb.RealCeph.{
  RealCephDb, Request, read_block, write_block, complete, wait_for_all, close, read_completed,
  write_completed,
}
use ycsb_c_copy.Platform.{Platform}
use ycsb_c_copy.Prelude.Int.{ℤ, pos, decrement, is_negative, is_zero}
use ycsb_c_copy.Prelude.{
  ℕ, zero, suc, ◌+◌, ◌≡◌, ◌∙◌, refl, ap, false, List, [], ◌∷◌, length, some, arith, ◌==◌,
  if◌then◌else◌,
}
use ycsb_c_copy.Run.{Run, ok, fault, still_running, ◌>>=◌}

-- No write among the requests fails.
abbrev pub WritesSucceed : (Request → ℤ) → List Request → Type 0
WritesSucceed results [] = Unit
WritesSucceed results (read_block o ∷ rs) = WritesSucceed results rs
WritesSucceed results (write_block o b ∷ rs) =
    (is_negative (results (write_block o b)) ≡ false) × WritesSucceed results rs

module _ (𝒫 : Platform) (results : Request → ℤ) where
  -- The database with no request pending.
  abbrev pub cleared : RealCephDb 𝒫 → RealCephDb 𝒫
  cleared db = record db { pending = []; async_op_count = pos 0 }

  -- With the time that `Close` took.
  abbrev stamped : ℕ → RealCephDb 𝒫 → RealCephDb 𝒫
  stamped elapsed db = record db { close_time = some (𝒫.of_u64 elapsed) }

  abbrev pub closed : ℕ → RealCephDb 𝒫 → RealCephDb 𝒫
  closed elapsed db = stamped elapsed (cleared db)

  abbrev end_of : ℕ → Run (RealCephDb 𝒫) → Run (RealCephDb 𝒫)
  end_of elapsed r = r >>= (λ db. ok (stamped elapsed db))

  wait_for_all-cleared :
      (left : List Request) (db : RealCephDb 𝒫) (extra : ℕ)
      → WritesSucceed results left
      → db.pending ≡ left
      → db.async_op_count ≡ pos (length left + extra)
      → wait_for_all 𝒫 results left db
        ≡ (if extra == 0 then ok (cleared db) else fault still_running)
  unfolding wait_for_all complete read_completed write_completed
  wait_for_all-cleared [] db zero h e c = rw (e, c)
  wait_for_all-cleared [] db (suc n) h e c = ground (arith, c)
  wait_for_all-cleared (read_block o ∷ left) db extra h e c =
      let more : db.async_op_count ≡ pos (suc (length left + extra)) = c ∙ ap pos (omega arith) in
      let awake : is_zero db.async_op_count ≡ false = ap is_zero more in
      rw awake (
        wait_for_all-cleared left
          (record db { pending = left; async_op_count = decrement db.async_op_count }) extra h refl
          (ap decrement more))
  wait_for_all-cleared (write_block o b ∷ left) db extra h e c =
      let more : db.async_op_count ≡ pos (suc (length left + extra)) = c ∙ ap pos (omega arith) in
      let awake : is_zero db.async_op_count ≡ false = ap is_zero more in
      rw (awake, h.0)
        (wait_for_all-cleared left
          (record db { pending = left; async_op_count = decrement db.async_op_count }) extra h.1
          refl (ap decrement more))

  -- While no pending write fails, whatever the reads return, and `async_op_count` is the number of
  -- pending requests and `extra` more, with the requests completing in the order of their issue and
  -- each completion waking the wait: if `extra` is 0, `Close` ends with no request pending, the count
  -- at 0, `CLOSE_TIME` set to what it took, and the rest as it was; if it is not, `Close` never ends.
  pub close-cleared :
      (db : RealCephDb 𝒫) (elapsed extra : ℕ)
      → db.async_op_count ≡ pos (length db.pending + extra)
      → WritesSucceed results db.pending
      → close 𝒫 results elapsed db
        ≡ (if extra == 0 then ok (closed elapsed db) else fault still_running)
  unfolding close
  close-cleared db elapsed zero counted succeed =
      ap (end_of elapsed) (wait_for_all-cleared db.pending db 0 succeed refl counted)
  close-cleared db elapsed (suc n) counted succeed =
      let more : (suc n == 0) ≡ false = ground arith in
      rw more (
        ap (end_of elapsed)
          (rw more at (wait_for_all-cleared db.pending db (suc n) succeed refl counted)))
