-- ===== src/BlockDb.antt =====
-- What the databases on blocks share: the phase and the times that db/ceph_db.h, db/real_ceph_db.h and
-- db/xihu_db.h each keep, and the number that they read from a key. A `long long` that counts calls
-- is a natural number: it does not reach 2 ^ 63.
pub mod Ceph
pub mod CephFile
pub mod RealCeph
pub mod Xihu
use ycsb_c_copy.Number.{stoi, substr}
use ycsb_c_copy.Platform.{Platform}
use ycsb_c_copy.Prelude.Int.{ℤ}
use ycsb_c_copy.Prelude.{
  ℕ, zero, ◌+◌, Bool, true, false, List, [], ◌∷◌, ◌++◌, Bytes, ◌≡◌, refl, ◌⊎◌, inl, inr,
}
use ycsb_c_copy.Run.{Run, ok, ◌>>=◌}

pub data Phase : Type 0 where
  invalid load transaction : Phase

pub Phase-cases : (p : Phase) → (p ≡ transaction) ⊎ ((p ≡ invalid) ⊎ (p ≡ load))
Phase-cases invalid = inr (inl refl)
Phase-cases load = inr (inr refl)
Phase-cases transaction = inl refl

-- `std::stoi(key.substr(4))`
unfoldable pub real_key : Bytes → Run ℤ
real_key key = substr key 4 >>= stoi

-- `Init(flag)`
abbrev pub phase_of : Bool → Phase
phase_of true = load
phase_of false = transaction

pub record Meter (𝒫 : Platform) : Type 0 where
  pub phase : Phase
  pub ops : ℕ
  pub read_time : List 𝒫.Double
  pub insert_time : List 𝒫.Double
  pub update_time : List 𝒫.Double
  pub delete_time : List 𝒫.Double
  pub scan_time : List 𝒫.Double
  pub load_time : List 𝒫.Double
  pub flush_time : List 𝒫.Double
  pub clock : 𝒫.Clock

module _ (𝒫 : Platform) where
  open 𝒫 use {Double, Clock, measure, literal, add, of_u64, div, mul}

  abbrev pub new_meter : Clock → Meter 𝒫
  new_meter clock = record {
    phase = invalid;
    ops = 0;
    read_time = [];
    insert_time = [];
    update_time = [];
    delete_time = [];
    scan_time = [];
    load_time = [];
    flush_time = [];
    clock = clock;
  }

  -- One more call, that `timer` took its time.
  abbrev pub read_done : Meter 𝒫 → Meter 𝒫
  read_done m =
      let (t, clock) = measure m.clock in
      record m { ops = m.ops + 1; read_time = m.read_time ++ t ∷ []; clock = clock }

  abbrev pub update_done : Meter 𝒫 → Meter 𝒫
  update_done m =
      let (t, clock) = measure m.clock in
      record m { ops = m.ops + 1; update_time = m.update_time ++ t ∷ []; clock = clock }

  abbrev pub delete_done : Meter 𝒫 → Meter 𝒫
  delete_done m =
      let (t, clock) = measure m.clock in
      record m { ops = m.ops + 1; delete_time = m.delete_time ++ t ∷ []; clock = clock }

  abbrev pub scan_done : Meter 𝒫 → Meter 𝒫
  scan_done m =
      let (t, clock) = measure m.clock in
      record m { ops = m.ops + 1; scan_time = m.scan_time ++ t ∷ []; clock = clock }

  -- The end of `Insert`, which counts the call only in the transaction phase.
  abbrev pub insert_done : Meter 𝒫 → Meter 𝒫
  insert_done m =
      let (t, clock) = measure m.clock in
      elim m.phase [
        | transaction ↦ record m {
          ops = m.ops + 1;
          insert_time = m.insert_time ++ t ∷ [];
          clock = clock;
        }
        | _ ↦ record m { load_time = m.load_time ++ t ∷ []; clock = clock }
      ]

  -- `for (auto i : times) duration += i;`
  abbrev pub add_times : Double → List Double → Double
  add_times duration [] = duration
  add_times duration (t ∷ times) = add_times (add duration t) times

  abbrev pub duration_of : List Double → Double
  duration_of = add_times (literal 0 1)

  -- What `HandleAllData` prints.
  pub record Report : Type 0 where
    pub read_duration : Double
    pub insert_duration : Double
    pub update_duration : Double
    pub delete_duration : Double
    pub scan_duration : Double
    pub flush_duration : Double
    pub operations : ℕ
    pub all_duration : Double
    pub speed : Double
    pub bandwidth : Double
    pub load_duration : Double
    pub load_speed : Double
