-- ===== src/XihuClient/Missions.antt =====
-- What holds of every mission, in whichever order the server answers.
use ycsb_c_copy.Prelude.{
  ℕ, ◌+◌, ◌^◌, ◌≤◌, ◌<◌, ◌≡◌, ◌↔◌, inl, inr, refl, sym, ◌∙◌, ap, subst, true, false, List, [], ◌∷◌,
  ◌++◌, Bytes, min, length, arith, ltb→ge, ltb→lt, ge→ltb,
}
use ycsb_c_copy.Run.{ok}
use ycsb_c_copy.XihuClient.Pipeline.{IsSteady, begin-IsSteady, Completes-IsSteady}
use ycsb_c_copy.XihuClient.Sending.{nonempty, Answers, range, Waits, occurs}
use ycsb_c_copy.XihuClient.{
  MsgType, read, Request, Mission, Buffers, deliver, begin, goes_on, cont_func, complete, Runs,
  none_left, then_one,
}

ok-injective : {A : Type 0} {a b : A} → ok a ≡ ok b → a ≡ b
ok-injective e = cc

-- A mission of `len` blocks from `bid` on, with `n` answers so far.
record IsUnderway (blocks : ℕ → Bytes) (start : List ℕ) (msg_type : MsgType) (bid len n : ℕ)
    (t : Mission) : Type 0 where
  steady : IsSteady blocks start t
  answered : t.nxt ≡ min 30 len + n
  all : t.tot ≡ len
  first : t.bid ≡ bid
  same_type : t.msg_type ≡ msg_type

no-Waits : (reqs : ℕ → Request) (n : ℕ) (ks : List ℕ) → length ks ≡ 0 → ¬ Waits reqs n ks
no-Waits reqs n [] e w = w
no-Waits reqs n (k ∷ ks) e w = omega arith

empty_of_length : {A : Type 0} (xs : List A) → length xs ≡ 0 → xs ≡ []
empty_of_length [] e = refl
empty_of_length (x ∷ xs) e = absurd (omega arith)

module _ (blocks : ℕ → Bytes) (answer : Request → ℕ × Bytes) (msg_type : MsgType)
    (answers : msg_type ≡ read → Answers blocks answer) (block_id len : ℕ) (buffer : ℕ → Bytes)
    (buffers : Buffers) (fits : block_id + len ≤ 2 ^ 32) (short : len + 30 ≤ 2 ^ 32)
    (enough : 30 ≤ length buffers.avail) (distinct : (k : ℕ) → occurs k buffers.avail ≤ 1) where
  Runs-IsUnderway :
      (s t : Mission) (n : ℕ)
      → begin msg_type block_id len buffer buffers ≡ ok s
      → Runs answer s n t
      → IsUnderway blocks buffers.avail msg_type block_id len n t
  Runs-IsUnderway s t n began none_left =
      let (b, run, steady, m, i, x, l) =
        begin-IsSteady blocks buffers.avail msg_type block_id len buffer buffers fits short refl
          enough distinct in
      let same : b ≡ s = ok-injective (sym run ∙ began) in
      subst (IsUnderway blocks buffers.avail msg_type block_id len 0) same
        (record { steady = steady; answered = omega arith; all = l; first = i; same_type = m })
  Runs-IsUnderway s t n began (then_one runs (complete a b r split ran)) =
      let h = Runs-IsUnderway s _ _ began runs in
      let (u, run, steady, x, l, i, m) =
        Completes-IsSteady blocks buffers.avail answer _ a b r (λ e. answers (sym h.same_type ∙ e))
          h.steady split in
      let same : u ≡ t = ok-injective (sym run ∙ ran) in
      subst (IsUnderway blocks buffers.avail msg_type block_id len n) same (record {
        steady = steady;
        answered = omega (arith, h.answered);
        all = l ∙ h.all;
        first = i ∙ h.first;
        same_type = m ∙ h.same_type;
      })

  -- With at least 30 free pairs of buffers, no two of them the same, block numbers that fit 32 bits,
  -- and a server that answers reads with the block that was asked for: after any number of completions
  -- in any order, at most 30 requests are under way; each pair of buffers that was free is free or
  -- under way, once; the blocks asked for are those of the mission, each once and in order; and the
  -- last loop ends exactly when nothing is under way. Then as many answers have come as there are
  -- blocks, every block was asked for, the same pairs of buffers are free as before, each once, and a
  -- read has every block in its place.
  pub Runs-finished :
      (s t : Mission) (n : ℕ)
      → begin msg_type block_id len buffer buffers ≡ ok s
      → Runs answer s n t
      → (length t.in_flight ≤ 30)
        × ((k : ℕ) → occurs k t.avail + occurs k t.in_flight ≡ occurs k buffers.avail)
        × (t.sent ≡ range block_id (min t.nxt len))
        × ((goes_on t ≡ false) ↔ (t.in_flight ≡ []))
        × (goes_on t ≡ false
            → (n ≡ len)
              × (t.sent ≡ range block_id len)
              × (length t.avail ≡ length buffers.avail)
              × ((k : ℕ) → occurs k t.avail ≡ occurs k buffers.avail)
              × (msg_type ≡ read → (i : ℕ) → i < len → t.buffer i ≡ blocks (block_id + i)))
  Runs-finished s t n began runs =
      let h = Runs-IsUnderway s t n began runs in
      let k = h.steady in
      let sent_is : t.sent ≡ range block_id (min t.nxt len) = rw (h.first, h.all) at k.sent_is in
      let quiet : goes_on t ≡ false → length t.in_flight ≡ 0 =
        λ stops. omega (arith, ltb→ge t.nxt (t.tot + t.pip) stops, k.balance) in
      (
        omega (arith, k.balance, k.depth),
        k.once,
        sent_is,
        (
          λ stops. empty_of_length t.in_flight (quiet stops),
          λ empty.
              ge→ltb t.nxt (t.tot + t.pip) (omega (arith, ap length empty, k.balance, k.depth)),
        ),
        λ stops.
            let none_flies : (j : ℕ) → occurs j t.in_flight ≡ 0 =
              λ j. ap (occurs j) (empty_of_length t.in_flight (quiet stops)) in
            let full = ltb→ge t.nxt (t.tot + t.pip) stops in
            (
              omega (arith, full, quiet stops, k.balance, k.depth, h.answered, h.all),
              sent_is ∙ ap (range block_id) (omega (arith, full, h.all)),
              omega (arith, quiet stops, k.free),
              λ j. omega (arith, k.once j, none_flies j),
              λ reads i below.
                  let at : t.buffer i ≡ blocks (t.bid + i) =
                    elim (k.covered (h.same_type ∙ reads) i (omega (arith, full, h.all))) [
                      | inl w ↦ absurd (no-Waits t.reqs (t.bid + i) t.in_flight (quiet stops) w)
                      | inr e ↦ e
                    ] in
                  at ∙ ap (λ b. blocks (b + i)) h.first,
            ),
      )

  -- With at least 30 free pairs of buffers, no two of them the same, block numbers that fit 32 bits,
  -- and a server that answers reads with the block that was asked for, no completion fails: while the
  -- last loop goes on there is a request under way, and whichever of them completes next, `cont_func`
  -- runs without a fault; no more completions come than there are blocks.
  pub Runs-progress :
      (s t : Mission) (n : ℕ)
      → begin msg_type block_id len buffer buffers ≡ ok s
      → Runs answer s n t
      → (n ≤ len)
        × (goes_on t ≡ true → (r : ℕ) × (rest : List ℕ) × (t.in_flight ≡ r ∷ rest))
        × ((a b : List ℕ) (r : ℕ)
            → t.in_flight ≡ a ++ r ∷ b
            → (u : Mission) × (cont_func r (deliver answer r (record t { in_flight = a ++ b }))
                ≡ ok u))
  Runs-progress s t n began runs =
      let h = Runs-IsUnderway s t n began runs in
      let k = h.steady in
      (
        omega (arith, k.balance, h.answered, h.all, k.depth),
        λ goes. nonempty t.in_flight (omega (arith, ltb→lt t.nxt (t.tot + t.pip) goes, k.balance)),
        λ a b r split.
            let (u, run, steady, x, l, i, m) =
              Completes-IsSteady blocks buffers.avail answer t a b r
                (λ e. answers (sym h.same_type ∙ e)) k split in
            (u, run),
      )
