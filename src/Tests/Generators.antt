-- ===== src/Tests/Generators.antt =====
-- The generators at work.
use ycsb_c_copy.Generator.Counter
use ycsb_c_copy.Generator.Counter.Threads.{Runs, idle, call, Distinct, Runs-unique}
use ycsb_c_copy.Generator.Counter.{CounterGenerator}
use ycsb_c_copy.Generator.Scrambled.Range
use ycsb_c_copy.Generator.Scrambled.{ScrambledZipfianGenerator, next_scrambled, last_scrambled}
use ycsb_c_copy.Generator.Zipfian
use ycsb_c_copy.Generator.Zipfian.Zeta
use ycsb_c_copy.Generator.Zipfian.{ZipfianGenerator, zeta_from_zero, zeta, zeta_rounds}
use ycsb_c_copy.Prelude.{ℕ, ◌+◌, ◌-◌, ◌%◌, ◌^◌, ◌≤◌, ◌<◌, ◌≡◌, refl, [], ◌∷◌, arith}
use ycsb_c_copy.Run.{ok}
use ycsb_c_copy.Tests.Machine.{machine}

-- Two threads, the second of which calls twice, near the end of the range.
abbrev late : CounterGenerator
late = record { counter = 2 ^ 64 - 2 }

late_run :
    Runs late
      (1 ∷ 2 ∷ 2 ∷ [])
      ((1, 2 ^ 64 - 2) ∷ (2, 2 ^ 64 - 1) ∷ (2, 0) ∷ [])
      (record { counter = 1 })
unfolding Counter.next
late_run = call (call (call idle))

Runs-unique_example :
    Distinct ((1, 2 ^ 64 - 2) ∷ (2, 2 ^ 64 - 1) ∷ (2, 0) ∷ []) × (1 ≡ (2 ^ 64 - 2 + 3) % 2 ^ 64)
Runs-unique_example = Runs-unique late_run (omega arith) (omega arith)

-- Four items from 10 on, their sums in place.
abbrev four : ZipfianGenerator machine
four = record {
  num_items = 4;
  base = 10;
  theta = 990000;
  zeta_n = zeta_from_zero machine 4 990000;
  eta = 500000;
  alpha = 1000000;
  zeta_2 = zeta_from_zero machine 2 990000;
  n_for_zeta = 4;
  last_value = 0;
}

four-IsValid : Zeta.IsValid machine four
four-IsValid = record { exact = refl; counted = refl; covered = omega arith }

next_of-Steps_example :
    (v : ℕ) × (g' : ZipfianGenerator machine) × (e' : ℕ) × (Zipfian.next_of machine four 6 100
      ≡ ok (v, g', e'))
    × Zeta.Steps machine four 6 v g'
next_of-Steps_example = Zeta.next_of-Steps machine four 6 100 four-IsValid refl

abbrev scattered : ScrambledZipfianGenerator machine
scattered = record { base = 10; num_items = 4; generator = four }

next_scrambled-within_example :
    (v : ℕ) × (g' : ScrambledZipfianGenerator machine) × (e' : ℕ) × (next_scrambled machine
        scattered 100
      ≡ ok (v, g', e'))
    × (10 ≤ v)
    × (v < 10 + 4)
    × (last_scrambled machine g' ≡ ok v)
    × Range.IsValid machine g'
    × (g'.base ≡ 10)
    × (g'.num_items ≡ 4)
next_scrambled-within_example =
    Range.next_scrambled-within machine scattered 100
      (record { inner = four-IsValid; same_items = refl; fits = omega arith })
