-- ===== src/XihuClient/Sending.antt =====
-- Sending one more block keeps the state of a mission.
use native.Mathlib.Nat.{mod-eq_of_lt}
use ycsb_c_copy.Prelude.{
  ℕ, zero, suc, ◌+◌, ◌^◌, ◌≤◌, ◌<◌, ◌≡◌, ◌⊎◌, inl, inr, refl, sym, ◌∙◌, ap, List, [], ◌∷◌, ◌++◌,
  Bytes, ltb, ◌==◌, if◌then◌else◌, false, min, length, length-append, arith, Bool-cases,
}
use ycsb_c_copy.Run.{ok}
use ycsb_c_copy.XihuClient.{read, Request, Mission, payload_of, fill, send}

-- The numbers from `b` on, `n` of them.
abbrev pub range : ℕ → ℕ → List ℕ
range b zero = []
range b (suc n) = b ∷ range (b + 1) n

last_suc : (n : ℕ) → suc (n + 1) ≡ suc n + 1
last_suc n = omega arith

range_snoc : (b n : ℕ) → range b n ++ (b + n) ∷ [] ≡ range b (n + 1)
range_snoc b zero = ap (λ x. x ∷ []) (omega arith)
range_snoc b (suc n) =
    let same : b + suc n ≡ b + 1 + n = omega arith in
    ap (λ x. b ∷ (range (b + 1) n ++ x ∷ [])) same
    ∙ ap (◌∷◌ b) (range_snoc (b + 1) n)
    ∙ ap (range b) (last_suc n)

-- The server's answer to a read holds the block that was asked for, under its number.
abbrev pub Answers : (ℕ → Bytes) → (Request → ℕ × Bytes) → Type 0
Answers blocks answer = (r : Request) → ((answer r).0 ≡ r.bid) × ((answer r).1 ≡ blocks r.bid)

-- How often `k` is in a list.
abbrev pub occurs : ℕ → List ℕ → ℕ
occurs k [] = 0
occurs k (x ∷ xs) = (if x == k then 1 else 0) + occurs k xs

pub occurs-append : (k : ℕ) (xs ys : List ℕ) → occurs k (xs ++ ys) ≡ occurs k xs + occurs k ys
occurs-append k [] ys = omega arith
occurs-append k (x ∷ xs) ys = ground (arith, occurs-append k xs ys)

pub occurs-split :
    (j : ℕ) (a b : List ℕ) (k : ℕ) → occurs j (a ++ k ∷ b) ≡ occurs j (k ∷ []) + occurs j (a ++ b)
occurs-split j a b k = ground (arith, occurs-append j a (k ∷ b), occurs-append j a b)

-- A request for block `n` is under way: the buffer of one of `ks` asks for it.
abbrev pub Waits : (ℕ → Request) → ℕ → List ℕ → Type 0
Waits reqs n [] = ⊥
Waits reqs n (k ∷ ks) = ((reqs k).bid ≡ n) ⊎ Waits reqs n ks

abbrev pub AllFrom : (ℕ → Request) → ℕ → List ℕ → Type 0
AllFrom reqs n [] = Unit
AllFrom reqs n (k ∷ ks) = (n ≤ (reqs k).bid) × AllFrom reqs n ks

fill_here : (reqs : ℕ → Request) (k : ℕ) (r : Request) → fill reqs k r k ≡ r
fill_here reqs k r = ground arith

-- A message in a buffer that is not under way overwrites no other.
Waits-snoc :
    (reqs : ℕ → Request) (n k : ℕ) (ks : List ℕ) (r : Request)
    → occurs k ks ≡ 0
    → Waits reqs n ks ⊎ (r.bid ≡ n)
    → Waits (fill reqs k r) n (ks ++ k ∷ [])
Waits-snoc reqs n k [] r fresh (inl m) = absurd m
Waits-snoc reqs n k [] r fresh (inr e) = inl (ap (λ q. q.bid) (fill_here reqs k r) ∙ e)
Waits-snoc reqs n k (j ∷ ks) r fresh m =
    let other : (j == k) ≡ false = ground (arith, fresh) in
    let rest : occurs k ks ≡ 0 = ground (arith, fresh) in
    elim m [
      | inl (inl e) ↦ inl (rw other e)
      | inl (inr w) ↦ inr (Waits-snoc reqs n k ks r rest (inl w))
      | inr e ↦ inr (Waits-snoc reqs n k ks r rest (inr e))
    ]

pub Waits-split :
    (reqs : ℕ → Request) (n : ℕ) (a b : List ℕ) (k : ℕ)
    → Waits reqs n (a ++ k ∷ b)
    → ((reqs k).bid ≡ n) ⊎ Waits reqs n (a ++ b)
Waits-split reqs n [] b k w = w
Waits-split reqs n (j ∷ a) b k (inl e) = inr (inl e)
Waits-split reqs n (j ∷ a) b k (inr w) = elim (Waits-split reqs n a b k w) [
  | inl e ↦ inl e
  | inr m ↦ inr (inr m)
]

AllFrom-snoc :
    (reqs : ℕ → Request) (n k : ℕ) (ks : List ℕ) (r : Request)
    → occurs k ks ≡ 0
    → AllFrom reqs n ks
    → n ≤ r.bid
    → AllFrom (fill reqs k r) n (ks ++ k ∷ [])
AllFrom-snoc reqs n k [] r fresh h le = (rw (fill_here reqs k r) le, tt)
AllFrom-snoc reqs n k (j ∷ ks) r fresh h le =
    let other : (j == k) ≡ false = ground (arith, fresh) in
    let rest : occurs k ks ≡ 0 = ground (arith, fresh) in
    (rw other h.0, AllFrom-snoc reqs n k ks r rest h.1 le)

pub AllFrom-split :
    (reqs : ℕ → Request) (n : ℕ) (a b : List ℕ) (k : ℕ)
    → AllFrom reqs n (a ++ k ∷ b)
    → (n ≤ (reqs k).bid) × AllFrom reqs n (a ++ b)
AllFrom-split reqs n [] b k h = h
AllFrom-split reqs n (j ∷ a) b k h =
    let (le, rest) = AllFrom-split reqs n a b k h.1 in (le, (h.0, rest))

-- `n` of the blocks have been asked for, where `q` counts the answers with the depth added. `start`
-- is the queue of free buffers at the beginning, and `blocks` what the server holds.
pub record IsState (blocks : ℕ → Bytes) (start : List ℕ) (n q : ℕ) (s : Mission) : Type 0 where
  pub fits : s.bid + s.tot ≤ 2 ^ 32
  pub short : s.tot + 30 ≤ 2 ^ 32
  pub depth : s.pip ≡ min 30 s.tot
  pub enough : 30 ≤ length start
  pub distinct : (k : ℕ) → occurs k start ≤ 1
  pub balance : length s.in_flight + q ≡ s.pip + min n s.tot
  pub free : length s.avail + length s.in_flight ≡ length start
  pub once : (k : ℕ) → occurs k s.avail + occurs k s.in_flight ≡ occurs k start
  pub sent_is : s.sent ≡ range s.bid (min n s.tot)
  pub above : AllFrom s.reqs s.bid s.in_flight
  pub covered :
      s.msg_type ≡ read
      → (i : ℕ) → i < min n s.tot
      → Waits s.reqs (s.bid + i) s.in_flight ⊎ (s.buffer i ≡ blocks (s.bid + i))

abbrev message : ℕ → Mission → Request
message seq s = record { msg_type = s.msg_type; bid = s.bid + seq; payload = payload_of s seq }

abbrev pushed : ℕ → Mission → ℕ → List ℕ → Mission
pushed seq s k ks = record s {
  avail = ks;
  reqs = fill s.reqs k (message seq s);
  in_flight = s.in_flight ++ k ∷ [];
  sent = s.sent ++ (s.bid + seq) ∷ [];
}

pub nonempty :
    {A : Type 0} (xs : List A) → 0 < length xs → (x : A) × (rest : List A) × (xs ≡ x ∷ rest)
nonempty [] h = absurd (omega arith)
nonempty (x ∷ xs) h = (x, xs, refl)

send_runs :
    (n k : ℕ) (ks : List ℕ) (s : Mission)
    → s.avail ≡ k ∷ ks
    → s.bid + n < 2 ^ 32
    → send n s ≡ ok (pushed n s k ks)
unfolding send
send_runs n k ks s e lt = rw (e, mod-eq_of_lt lt)

-- The mission's fixed members.
abbrev pub Same : Mission → Mission → Type 0
Same s t =
    (t.msg_type ≡ s.msg_type)
    × (t.bid ≡ s.bid)
    × (t.nxt ≡ s.nxt)
    × (t.tot ≡ s.tot)
    × (t.pip ≡ s.pip)

module _ (blocks : ℕ → Bytes) (start : List ℕ) where
  pushed-IsState :
      (n q k : ℕ) (ks : List ℕ) (s : Mission)
      → IsState blocks start n q s
      → n < s.tot
      → s.avail ≡ k ∷ ks
      → IsState blocks start (n + 1) q (pushed n s k ks)
  pushed-IsState n q k ks s h lt e =
      let r = message n s in
      let one_more = length-append s.in_flight (k ∷ []) in
      let all = h.once k in
      let fresh : occurs k s.in_flight ≡ 0 = ground (arith, rw e at all, h.distinct k) in
      let now : min n s.tot ≡ n = omega arith in
      let then_is : min (n + 1) s.tot ≡ n + 1 = omega arith in
      record {
        fits = h.fits;
        short = h.short;
        depth = h.depth;
        enough = h.enough;
        distinct = h.distinct;
        balance = omega (arith, one_more, h.balance);
        free = omega (arith, one_more, h.free, ap length e);
        once = λ j.
            let same = h.once j in
            ground (arith, occurs-append j s.in_flight (k ∷ []), rw e at same);
        sent_is =
            ap (λ l. l ++ (s.bid + n) ∷ []) (h.sent_is ∙ ap (range s.bid) now)
            ∙ range_snoc s.bid n
            ∙ ap (range s.bid) (sym then_is);
        above = AllFrom-snoc s.reqs s.bid k s.in_flight r fresh h.above (omega arith);
        covered = λ reads i below. elim (Bool-cases (ltb i n)) [
          | inl early ↦ elim (h.covered reads i (ground arith)) [
            | inl w ↦ inl (Waits-snoc s.reqs (s.bid + i) k s.in_flight r fresh (inl w))
            | inr at ↦ inr at
          ]
          | inr late ↦
              inl (Waits-snoc s.reqs (s.bid + i) k s.in_flight r fresh (inr (ground arith)))
        ];
      }

  pub send-IsState :
      (n q : ℕ) (s : Mission)
      → IsState blocks start n q s
      → length s.in_flight < s.pip
      → n < s.tot
      → (t : Mission) × (send n s ≡ ok t)
        × IsState blocks start (n + 1) q t
        × Same s t
        × (length t.in_flight ≡ length s.in_flight + 1)
  send-IsState n q s h room lt =
      let (k, ks, e) = nonempty s.avail (omega (arith, h.free, h.enough, h.depth)) in
      (
        pushed n s k ks,
        send_runs n k ks s e (omega (arith, h.fits)),
        pushed-IsState n q k ks s h lt e,
        (refl, refl, refl, refl, refl),
        length-append s.in_flight (k ∷ []),
      )
