-- ===== src/XihuClient/Pipeline.antt =====
-- Whole missions: every block is asked for once, and the last loop ends when all have been answered.
use native.Mathlib.Nat.{mod-eq_of_lt}
use ycsb_c_copy.Prelude.{
  ℕ, zero, suc, ◌+◌, ◌-◌, ◌%◌, ◌^◌, ◌≤◌, ◌≡◌, ◌⊎◌, inl, inr, refl, sym, ◌∙◌, ap, subst, List, [],
  ◌∷◌, ◌++◌, Bytes, leb, ltb, true, false, ◌==◌, min, if◌then◌else◌, length, length-append, arith,
  Bool-cases, ge→ltb, leb→le,
}
use ycsb_c_copy.Run.{Run, ok, ◌>>=◌}
use ycsb_c_copy.XihuClient.Sending.{
  range, Answers, Waits, AllFrom, Waits-split, AllFrom-split, occurs, occurs-append, occurs-split,
  IsState, Same, send-IsState,
}
use ycsb_c_copy.XihuClient.{
  MsgType, read, write, Request, Mission, Buffers, send, send_first, begin, store, deliver,
  cont_func,
}

MsgType-cases : (m : MsgType) → (m ≡ read) ⊎ (m ≡ write)
MsgType-cases read = inl refl
MsgType-cases write = inr refl

module _ (blocks : ℕ → Bytes) (start : List ℕ) where
  send_first-IsState :
      (n i q : ℕ) (s : Mission)
      → IsState blocks start i q s
      → length s.in_flight ≡ i
      → i + n ≡ s.pip
      → (t : Mission) × (send_first n i s ≡ ok t) × IsState blocks start (i + n) q t × Same s t
  unfolding send_first
  send_first-IsState zero i q s h under_way rounds = (
    s,
    refl,
    subst (λ k. IsState blocks start k q s) (omega arith) h,
    (refl, refl, refl, refl, refl),
  )
  send_first-IsState (suc n) i q s h under_way rounds =
      let (t, run, h', same, one_more) =
        send-IsState blocks start i q s h (omega arith) (omega (arith, h.depth)) in
      let (u, rest, h'', same') =
        send_first-IsState n (i + 1) q t h' (omega arith) (omega (arith, same.4)) in
      (
        u,
        rw (run, rest),
        subst (λ k. IsState blocks start k q u) (omega arith) h'',
        (same'.0 ∙ same.0, same'.1 ∙ same.1, same'.2 ∙ same.2, same'.3 ∙ same.3, same'.4 ∙ same.4),
      )

  -- Between two completions.
  abbrev pub IsSteady : Mission → Type 0
  IsSteady s = IsState blocks start s.nxt s.nxt s

  pub begin-IsSteady :
      (msg_type : MsgType) (block_id len : ℕ) (buffer : ℕ → Bytes) (buffers : Buffers)
      → block_id + len ≤ 2 ^ 32
      → len + 30 ≤ 2 ^ 32
      → buffers.avail ≡ start
      → 30 ≤ length start
      → ((k : ℕ) → occurs k start ≤ 1)
      → (t : Mission) × (begin msg_type block_id len buffer buffers ≡ ok t)
        × IsSteady t
        × (t.msg_type ≡ msg_type)
        × (t.bid ≡ block_id)
        × (t.nxt ≡ min 30 len)
        × (t.tot ≡ len)
  unfolding begin
  begin-IsSteady msg_type block_id len buffer buffers fits short is_start enough distinct =
      let depth = min 30 len in
      let first : Mission = record {
        msg_type = msg_type;
        bid = block_id;
        nxt = depth;
        tot = len;
        pip = depth;
        avail = buffers.avail;
        reqs = buffers.reqs;
        resps = buffers.resps;
        in_flight = [];
        sent = [];
        buffer = buffer;
      } in
      let none_yet : min 0 len ≡ 0 = omega arith in
      let h : IsState blocks start 0 depth first = record {
        fits = fits;
        short = short;
        depth = refl;
        enough = enough;
        distinct = distinct;
        balance = omega arith;
        free = omega (arith, ap length is_start);
        once = λ k. omega (arith, ap (occurs k) is_start);
        sent_is = ap (range block_id) (sym none_yet);
        above = tt;
        covered = λ reads i below. absurd (omega arith);
      } in
      let (t, run, h', same) = send_first-IsState depth 0 depth first h refl (omega arith) in
      (
        t,
        run,
        subst (λ n. IsState blocks start n n t) (sym same.2)
            (subst (λ n. IsState blocks start n depth t) (omega arith) h'),
        same.0,
        same.1,
        same.2,
        same.3,
      )

  -- The end of `cont_func`: another block is asked for, if there is one left.
  go_on-IsSteady :
      (n : ℕ) (m : Mission)
      → IsState blocks start n (n + 1) m
      → m.nxt ≡ n + 1
      → (t : Mission) × ((if leb m.tot n then ok m else send n m) ≡ ok t) × IsSteady t × Same m t
  go_on-IsSteady n m h is_next = elim (Bool-cases (leb m.tot n)) [
    | inl all_sent ↦
        let le = leb→le m.tot n all_sent in
        let same : min n m.tot ≡ min (n + 1) m.tot = omega arith in
        (
          m,
          rw all_sent,
          subst (λ k. IsState blocks start k k m) (sym is_next)
              (record {
                fits = h.fits;
                short = h.short;
                depth = h.depth;
                enough = h.enough;
                distinct = h.distinct;
                balance = omega (arith, h.balance);
                free = h.free;
                once = h.once;
                sent_is = h.sent_is ∙ ap (range m.bid) same;
                above = h.above;
                covered = λ reads i below. h.covered reads i (omega arith);
              }),
          (refl, refl, refl, refl, refl),
        )
    | inr more ↦
        let (t, run, h', same, one_more) =
          send-IsState blocks start n (n + 1) m h (ground (arith, h.balance, h.depth))
            (ground arith) in
        (t, rw more run, subst (λ k. IsState blocks start k k t) (sym (same.2 ∙ is_next)) h', same)
  ]

  -- The mission once the buffers `k` are free again, with the answer in the second.
  abbrev freed : (Request → ℕ × Bytes) → Mission → List ℕ → ℕ → Mission
  freed answer s left k = record (deliver answer k s) {
    in_flight = left;
    avail = s.avail ++ k ∷ [];
    nxt = s.nxt + 1;
  }

  once_more :
      (s : Mission) (a b : List ℕ) (r : ℕ)
      → IsSteady s
      → s.in_flight ≡ a ++ r ∷ b
      → (k : ℕ) → occurs k (s.avail ++ r ∷ []) + occurs k (a ++ b) ≡ occurs k start
  once_more s a b r h split k =
      omega (
        arith,
        h.once k,
        ap (occurs k) split,
        occurs-split k a b r,
        occurs-append k s.avail (r ∷ []),
      )

  freed-IsState :
      (answer : Request → ℕ × Bytes) (s : Mission) (a b : List ℕ) (r : ℕ)
      → IsSteady s
      → s.in_flight ≡ a ++ r ∷ b
      → s.msg_type ≡ write
      → IsState blocks start s.nxt (s.nxt + 1) (freed answer s (a ++ b) r)
  freed-IsState answer s a b r h split writes =
      let fewer : length s.in_flight ≡ length (a ++ b) + 1 =
        ap length split ∙ omega (arith, length-append a (r ∷ b), length-append a b) in
      record {
        fits = h.fits;
        short = h.short;
        depth = h.depth;
        enough = h.enough;
        distinct = h.distinct;
        balance = omega (arith, h.balance);
        free = omega (arith, h.free, length-append s.avail (r ∷ []));
        once = once_more s a b r h split;
        sent_is = h.sent_is;
        above = (AllFrom-split s.reqs s.bid a b r (subst (AllFrom s.reqs s.bid) split h.above)).1;
        covered = λ reads i below. cc;
      }

  -- The same with the answer's block in the caller's buffer.
  abbrev stored : Mission → ℕ → Bytes → Mission
  stored m place block = record m { buffer = λ i. if i == place then block else m.buffer i }

  stored-IsState :
      (answer : Request → ℕ × Bytes) (s : Mission) (a b : List ℕ) (r : ℕ)
      → IsSteady s
      → s.in_flight ≡ a ++ r ∷ b
      → IsState blocks start s.nxt
          (s.nxt + 1)
          (stored (freed answer s (a ++ b) r) ((s.reqs r).bid - s.bid) (blocks (s.reqs r).bid))
  stored-IsState answer s a b r h split =
      let fewer : length s.in_flight ≡ length (a ++ b) + 1 =
        ap length split ∙ omega (arith, length-append a (r ∷ b), length-append a b) in
      let (le, above) =
        AllFrom-split s.reqs s.bid a b r (subst (AllFrom s.reqs s.bid) split h.above) in
      record {
        fits = h.fits;
        short = h.short;
        depth = h.depth;
        enough = h.enough;
        distinct = h.distinct;
        balance = omega (arith, h.balance);
        free = omega (arith, h.free, length-append s.avail (r ∷ []));
        once = once_more s a b r h split;
        sent_is = h.sent_is;
        above = above;
        covered = λ reads i below. elim (Bool-cases (i == (s.reqs r).bid - s.bid)) [
          | inl here ↦
              let same : (s.reqs r).bid ≡ s.bid + i = ground arith in inr (rw here (ap blocks same))
          | inr other ↦ elim (h.covered reads i below) [
            | inr at ↦ inr (rw other at)
            | inl w ↦
                elim (Waits-split s.reqs (s.bid + i) a b r
                  (subst (Waits s.reqs (s.bid + i)) split w)) [
                    | inl e ↦ absurd (ground arith)
                    | inr m ↦ inl m
                  ]
          ]
        ];
      }

  -- The mission with the buffers `k` free again and one answer more.
  abbrev back : ℕ → Mission → Mission
  back k m = record m { avail = m.avail ++ k ∷ []; nxt = m.nxt + 1 }

  abbrev go_on : ℕ → Mission → Run Mission
  go_on seq m = if leb m.tot seq then ok m else send seq m

  choose_read : (m : MsgType) (w r : Run Mission) → m ≡ read → elim m [ write ↦ w | read ↦ r ] ≡ r
  choose_read m w r e = rw e refl

  choose_write : (m : MsgType) (w r : Run Mission) → m ≡ write → elim m [ write ↦ w | read ↦ r ] ≡ w
  choose_write m w r e = rw e refl

  store-stored :
      (n : ℕ) (block : Bytes) (m : Mission)
      → ltb n m.bid ≡ false
      → store n block m ≡ ok (stored m (n - m.bid) block)
  unfolding store
  store-stored n block m le = rw le refl

  -- `cont_func` of a write, and of a read by the answer in its buffer.
  cont_func_write :
      (k seq : ℕ) (m : Mission)
      → m.msg_type ≡ write
      → m.nxt % 2 ^ 32 ≡ seq
      → cont_func k m ≡ go_on seq (back k m)
  unfolding cont_func
  cont_func_write k seq m writes is_seq =
      choose_write m.msg_type _ _ writes ∙ ap (λ q. go_on q (back k m)) is_seq

  cont_func_read :
      (k n seq : ℕ) (block : Bytes) (m : Mission)
      → m.msg_type ≡ read
      → (m.resps k).0 ≡ n
      → (m.resps k).1 ≡ block
      → ltb n m.bid ≡ false
      → m.nxt % 2 ^ 32 ≡ seq
      → cont_func k m ≡ go_on seq (stored (back k m) (n - m.bid) block)
  unfolding cont_func
  cont_func_read k n seq block m reads is_n is_block le is_seq =
      choose_read m.msg_type _ _ reads
      ∙ ap (λ x. store x (m.resps k).1 (back k m) >>= go_on (m.nxt % 2 ^ 32)) is_n
      ∙ ap (λ x. store n x (back k m) >>= go_on (m.nxt % 2 ^ 32)) is_block
      ∙ ap (λ x. x >>= go_on (m.nxt % 2 ^ 32)) (store-stored n block (back k m) le)
      ∙ ap (λ q. go_on q (stored (back k m) (n - m.bid) block)) is_seq

  pub Completes-IsSteady :
      (answer : Request → ℕ × Bytes) (s : Mission) (a b : List ℕ) (r : ℕ)
      → (s.msg_type ≡ read → Answers blocks answer)
      → IsSteady s
      → s.in_flight ≡ a ++ r ∷ b
      → (t : Mission) × (cont_func r (deliver answer r (record s { in_flight = a ++ b })) ≡ ok t)
        × IsSteady t
        × (t.nxt ≡ s.nxt + 1)
        × (t.tot ≡ s.tot)
        × (t.bid ≡ s.bid)
        × (t.msg_type ≡ s.msg_type)
  unfolding cont_func store
  Completes-IsSteady answer s a b r answers h split =
      let fewer : length s.in_flight ≡ length (a ++ b) + 1 =
        ap length split ∙ omega (arith, length-append a (r ∷ b), length-append a b) in
      let seq_is : s.nxt % 2 ^ 32 ≡ s.nxt =
        mod-eq_of_lt (omega (arith, h.balance, h.short, h.depth)) in
      let self : (r == r) ≡ true = ground arith in
      elim (MsgType-cases s.msg_type) [
        | inl reads ↦
            let (le, above) =
              AllFrom-split s.reqs s.bid a b r (subst (AllFrom s.reqs s.bid) split h.above) in
            let m =
              stored (freed answer s (a ++ b) r) ((s.reqs r).bid - s.bid) (blocks (s.reqs r).bid) in
            let (t, run, steady, same) =
              go_on-IsSteady s.nxt m (stored-IsState answer s a b r h split) refl in
            (
              t,
              cont_func_read r (s.reqs r).bid s.nxt (blocks (s.reqs r).bid)
                    (deliver answer r (record s { in_flight = a ++ b })) reads
                    (rw self (answers reads (s.reqs r)).0) (rw self (answers reads (s.reqs r)).1)
                    (ge→ltb (s.reqs r).bid s.bid le) seq_is
                  ∙ run,
              steady,
              same.2,
              same.3,
              same.1,
              same.0,
            )
        | inr writes ↦
            let (t, run, steady, same) =
              go_on-IsSteady s.nxt (freed answer s (a ++ b) r)
                (freed-IsState answer s a b r h split writes) refl in
            (
              t,
              cont_func_write r s.nxt (deliver answer r (record s { in_flight = a ++ b })) writes
                    seq_is
                  ∙ run,
              steady,
              same.2,
              same.3,
              same.1,
              same.0,
            )
      ]
