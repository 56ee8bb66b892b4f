-- ===== src/Number/RoundTrip.antt =====
-- What `to_string` writes, `stoi` reads back.
use native.Mathlib.Nat.{pow-suc}
use ycsb_c_copy.Prelude.{
  ℕ, zero, suc, ◌/◌, ◌^◌, ◌<◌, ◌≡◌, refl, ap, ◌∙◌, sym, true, [], ◌∷◌, arith, ltb, Bool-cases,
  Bytes, inl, inr, false, ◌==◌,
}
use ycsb_c_copy.Prelude.Int.{pos}
use ycsb_c_copy.Number.{write_digits, to_string, is_digit, read_digits, stoi}
use ycsb_c_copy.Run.{ok}

read_digits-write_digits :
    (fuel n : ℕ) (out : Bytes)
    → n < 10 ^ fuel
    → read_digits 0 (write_digits fuel n out) ≡ read_digits n out
unfolding write_digits read_digits
read_digits-write_digits zero n out h = let e : n ≡ 0 = omega arith in rw e
read_digits-write_digits (suc fuel) n out h = elim (Bool-cases (ltb n 10)) [
  | inl small ↦ rw small (ground arith)
  | inr large ↦
      rw large
        (read_digits-write_digits fuel (n / 10) _ (omega (arith, pow-suc 10 fuel)) ∙ ground arith)
]

-- Every text that begins with a digit.
abbrev pub StartsWithDigit : Bytes → Type 0
StartsWithDigit s = (c : ℕ) × (r : Bytes) × (s ≡ c ∷ r) × (is_digit c ≡ true)

write_digits-StartsWithDigit :
    (fuel n : ℕ) (out : Bytes) → StartsWithDigit out → StartsWithDigit (write_digits fuel n out)
unfolding write_digits
write_digits-StartsWithDigit zero n out h = h
write_digits-StartsWithDigit (suc fuel) n out h = elim (Bool-cases (ltb n 10)) [
  | inl small ↦ rw small (_, _, refl, ground arith)
  | inr large ↦ rw large (write_digits-StartsWithDigit fuel (n / 10) _ (_, _, refl, ground arith))
]

pub to_string-StartsWithDigit : (n : ℕ) → StartsWithDigit (to_string n)
unfolding to_string write_digits
to_string-StartsWithDigit n = elim (Bool-cases (ltb n 10)) [
  | inl small ↦ rw small (_, _, refl, ground arith)
  | inr large ↦ rw large (write_digits-StartsWithDigit 19 (n / 10) _ (_, _, refl, ground arith))
]

pub read_digits-to_string : (n : ℕ) → n < 2 ^ 64 → read_digits 0 (to_string n) ≡ n
unfolding to_string read_digits
read_digits-to_string n h = read_digits-write_digits 20 n [] (omega arith)

stoi-StartsWithDigit :
    (s : Bytes) → StartsWithDigit s → read_digits 0 s < 2 ^ 31 → stoi s ≡ ok (pos (read_digits 0 s))
unfolding stoi
stoi-StartsWithDigit s (c, r, e, d) h = rw e (ground arith)

-- Two `uint64_t` with the same decimal text are equal.
pub to_string-injective : (m n : ℕ) → m < 2 ^ 64 → n < 2 ^ 64 → to_string m ≡ to_string n → m ≡ n
to_string-injective m n hm hn e =
    sym (read_digits-to_string m hm) ∙ ap (read_digits 0) e ∙ read_digits-to_string n hn

-- `std::stoi` reads back what `std::to_string` wrote, for every number that an `int` can hold.
pub stoi-to_string : (n : ℕ) → n < 2 ^ 31 → stoi (to_string n) ≡ ok (pos n)
stoi-to_string n h =
    let e : read_digits 0 (to_string n) ≡ n = read_digits-to_string n (omega arith) in
    stoi-StartsWithDigit (to_string n) (to_string-StartsWithDigit n) (rw e h)
    ∙ ap (λ k. ok (pos k)) e

-- No byte is 0.
abbrev pub NoNul : Bytes → Type 0
NoNul [] = Unit
NoNul (c ∷ cs) = ((c == 0) ≡ false) × NoNul cs

write_digits-NoNul : (fuel n : ℕ) (out : Bytes) → NoNul out → NoNul (write_digits fuel n out)
unfolding write_digits
write_digits-NoNul zero n out h = h
write_digits-NoNul (suc fuel) n out h = elim (Bool-cases (ltb n 10)) [
  | inl small ↦ rw small (ground arith, h)
  | inr large ↦ rw large (write_digits-NoNul fuel (n / 10) _ (ground arith, h))
]

pub to_string-NoNul : (n : ℕ) → NoNul (to_string n)
unfolding to_string
to_string-NoNul n = write_digits-NoNul 20 n [] tt
