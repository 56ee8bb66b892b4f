-- ===== src/XihuClient/EventLoop.antt =====
-- The last loop of `read` and `write` ends.
use ycsb_c_copy.Prelude.{
  ℕ, zero, suc, ◌+◌, ◌^◌, ◌≤◌, ◌<◌, ◌≡◌, true, false, List, [], ◌∷◌, Bytes, length, arith,
  Bool-cases, inl, inr,
}
use ycsb_c_copy.Run.{ok}
use ycsb_c_copy.XihuClient.Missions.{Runs-progress, Runs-finished}
use ycsb_c_copy.XihuClient.Sending.{Answers, range, occurs}
use ycsb_c_copy.XihuClient.{
  MsgType, read, Request, Mission, Buffers, deliver, begin, goes_on, cont_func, event_loop,
  Completes, complete, Runs, none_left, then_one,
}

-- The step that answers the first request under way.
first_step :
    (answer : Request → ℕ × Bytes) (s t : Mission) (r : ℕ) (rest : List ℕ)
    → s.in_flight ≡ r ∷ rest
    → cont_func r (deliver answer r (record s { in_flight = rest })) ≡ ok t
    → Completes answer s t
first_step answer s t r rest e run = complete [] rest r e run

loop_step :
    (fuel : ℕ) (answer : Request → ℕ × Bytes) (t v u : Mission) (r : ℕ) (rest : List ℕ)
    → goes_on t ≡ true
    → t.in_flight ≡ r ∷ rest
    → cont_func r (deliver answer r (record t { in_flight = rest })) ≡ ok v
    → event_loop fuel answer v ≡ ok u
    → event_loop (suc fuel) answer t ≡ ok u
unfolding event_loop
loop_step fuel answer t v u r rest goes e run ran = rw (event_loop, goes, e, run) ran

module _ (blocks : ℕ → Bytes) (answer : Request → ℕ × Bytes) (msg_type : MsgType)
    (answers : msg_type ≡ read → Answers blocks answer) (block_id len : ℕ) (buffer : ℕ → Bytes)
    (buffers : Buffers) (fits : block_id + len ≤ 2 ^ 32) (short : len + 30 ≤ 2 ^ 32)
    (enough : 30 ≤ length buffers.avail) (distinct : (k : ℕ) → occurs k buffers.avail ≤ 1)
    (s : Mission) (began : begin msg_type block_id len buffer buffers ≡ ok s) where
  loop_ends :
      (fuel n : ℕ) (t : Mission)
      → len < fuel + n
      → Runs answer s n t
      → (u : Mission) × (m : ℕ) × (event_loop fuel answer t ≡ ok u)
        × Runs answer s m u
        × (goes_on u ≡ false)
  unfolding event_loop
  loop_ends zero n t enough_fuel runs =
      let p =
        Runs-progress blocks answer msg_type answers block_id len buffer buffers fits short enough
          distinct s t n began runs in
      absurd (omega (arith, p.0))
  loop_ends (suc fuel) n t enough_fuel runs = elim (Bool-cases (goes_on t)) [
    | inr stops ↦ (t, n, rw (event_loop, stops), runs, stops)
    | inl goes ↦
        let (le, waiting, steps) =
          Runs-progress blocks answer msg_type answers block_id len buffer buffers fits short enough
            distinct s t n began runs in
        let (r, rest, e) = waiting goes in
        let (v, run) = steps [] rest r e in
        let (u, m, ran, all, ended) =
          loop_ends fuel (n + 1) v (omega arith)
            (then_one runs (first_step answer t v r rest e run)) in
        (u, m, loop_step fuel answer t v u r rest goes e run ran, all, ended)
  ]

  pub event_loop-finished :
      (t : Mission) × (event_loop (len + 1) answer s ≡ ok t)
      × (t.in_flight ≡ [])
      × (length t.avail ≡ length buffers.avail)
      × ((k : ℕ) → occurs k t.avail ≡ occurs k buffers.avail)
      × (t.sent ≡ range block_id len)
      × (msg_type ≡ read → (i : ℕ) → i < len → t.buffer i ≡ blocks (block_id + i))
  event_loop-finished =
      let (t, m, run, runs, ended) = loop_ends (len + 1) 0 s (omega arith) none_left in
      let (few, kept, sent_is, quiet, at_end) =
        Runs-finished blocks answer msg_type answers block_id len buffer buffers fits short enough
          distinct s t m began runs in
      let (count, all_sent, free, same_free, in_place) = at_end ended in
      (t, run, quiet.0 ended, free, same_free, all_sent, in_place)
