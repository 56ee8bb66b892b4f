-- ===== src/Ycsbc/Interleaving/Sums.antt =====
-- Numbers of threads and of rounds, whatever the place of a thread in the list.
use ycsb_c_copy.HashtableDb.Refinement.{key_of}
use ycsb_c_copy.Prelude.{
  ℕ, zero, suc, ◌+◌, ◌*◌, ◌≤◌, ◌≡◌, refl, List, [], ◌∷◌, ◌++◌, Bytes, equal, if◌then◌else◌, arith,
}
use native.Mathlib.Nat
use ycsb_c_copy.Ycsbc.Interleaving.{Thread, idle, drawn, built, started}

abbrev pub left_of : Thread → ℕ
left_of (idle n oks) = n
left_of (drawn n oks key) = n
left_of (built n oks key es) = n

abbrev pub oks_of : Thread → ℕ
oks_of (idle n oks) = oks
oks_of (drawn n oks key) = oks
oks_of (built n oks key es) = oks

-- Whether the thread is inside a round.
abbrev pub flying_of : Thread → ℕ
flying_of (idle n oks) = 0
flying_of _ = 1

-- Whether it is inside a round for the text `q`, by the table's name.
abbrev pub holds_of : Bytes → Bytes → Thread → ℕ
holds_of table q (idle n oks) = 0
holds_of table q (drawn n oks key) = if equal (key_of table key) q then 1 else 0
holds_of table q (built n oks key es) = if equal (key_of table key) q then 1 else 0

-- The calls that the thread has yet to make.
abbrev pub calls_of : Thread → ℕ
calls_of (idle n oks) = 3 * n
calls_of (drawn n oks key) = 3 * n + 2
calls_of (built n oks key es) = 3 * n + 1

abbrev pub total : (Thread → ℕ) → List Thread → ℕ
total f [] = 0
total f (t ∷ ts) = f t + total f ts

abbrev pub All : (Thread → Type 0) → List Thread → Type 0
All P [] = Unit
All P (t ∷ ts) = P t × All P ts

pub total-middle :
    (f : Thread → ℕ) (before after : List Thread) (t : Thread)
    → total f (before ++ t ∷ after) ≡ total f (t ∷ (before ++ after))
total-middle f [] after t = refl
total-middle f (u ∷ before) after t = omega (arith, total-middle f before after t)

pub All-front :
    (P : Thread → Type 0) (before after : List Thread) (t : Thread)
    → All P (before ++ t ∷ after)
    → All P (t ∷ (before ++ after))
All-front P [] after t h = h
All-front P (u ∷ before) after t (h, hs) =
    let (g, gs) = All-front P before after t hs in (g, (h, gs))

pub All-back :
    (P : Thread → Type 0) (before after : List Thread) (t : Thread)
    → All P (t ∷ (before ++ after))
    → All P (before ++ t ∷ after)
All-back P [] after t h = h
All-back P (u ∷ before) after t (g, (h, gs)) = (h, All-back P before after t (g, gs))

pub All-more :
    (P Q : Thread → Type 0) (ts : List Thread) → ((t : Thread) → P t → Q t) → All P ts → All Q ts
All-more P Q [] more h = tt
All-more P Q (t ∷ ts) more (h, hs) = (more t h, All-more P Q ts more hs)

holds-le-flying : (table q : Bytes) (t : Thread) → holds_of table q t ≤ flying_of t
holds-le-flying table q (idle n oks) = omega arith
holds-le-flying table q (drawn n oks key) = ground arith
holds-le-flying table q (built n oks key es) = ground arith

pub total_holds-le :
    (table q : Bytes) (ts : List Thread) → total (holds_of table q) ts ≤ total flying_of ts
total_holds-le table q [] = omega arith
total_holds-le table q (t ∷ ts) =
    omega (arith, holds-le-flying table q t, total_holds-le table q ts)

-- What the threads start with.
pub total-started :
    (k share : ℕ)
    → (total left_of (started k share) ≡ k * share)
      × (total oks_of (started k share) ≡ 0)
      × (total flying_of (started k share) ≡ 0)
total-started zero share = (omega (arith, Nat.zero-mul share), refl, refl)
total-started (suc k) share =
    let (a, b, c) = total-started k share in
    (omega (arith, a, Nat.suc-mul k share), omega (arith, b), omega (arith, c))
