-- ===== src/Number.antt =====
-- The standard library's conversions that the program uses between numbers and text:
-- `std::to_string(uint64_t)`, `std::stoi` and `std::string::substr(pos)`.
pub mod RoundTrip
use ycsb_c_copy.Prelude.{
  ℕ, zero, suc, ◌+◌, ◌-◌, ◌*◌, ◌/◌, ◌%◌, Bool, true, false, ◌&&◌, ◌||◌, List, [], ◌∷◌, ltb, leb,
  ◌==◌, if◌then◌else◌, Bytes, length, drop,
}
use ycsb_c_copy.Prelude.Int.{ℤ, pos, negsuc, fits_int}
use ycsb_c_copy.Run.{Run, ok, fault, invalid_argument, out_of_range, ◌>>=◌}

-- Writes the digits of `n` in front of `out`, the last digit first.
unfoldable pub write_digits : ℕ → ℕ → Bytes → Bytes
write_digits zero n out = out
write_digits (suc fuel) n out =
    let rest = write_digits fuel (n / 10) ((b'0' + n % 10) ∷ out) in
    if ltb n 10 then (b'0' + n) ∷ out else rest

-- A number below 2 ^ 64 has at most 20 digits.
unfoldable pub to_string : ℕ → Bytes
unfolding write_digits
to_string n = write_digits 20 n []

abbrev pub is_digit : ℕ → Bool
is_digit c = leb b'0' c && leb c b'9'

-- `std::isspace` in the "C" locale.
abbrev pub is_space : ℕ → Bool
is_space c = c == b' ' || leb 9 c && leb c 13

unfoldable pub drop_space : Bytes → Bytes
drop_space [] = []
drop_space (c ∷ cs) = if is_space c then drop_space cs else c ∷ cs

-- The number that the digits at the front of a text continue.
unfoldable pub read_digits : ℕ → Bytes → ℕ
read_digits acc [] = acc
read_digits acc (c ∷ cs) =
    let rest = read_digits (acc * 10 + (c - b'0')) cs in if is_digit c then rest else acc

unfoldable pub read_magnitude : Bytes → Run ℕ
unfolding read_digits
read_magnitude [] = fault invalid_argument
read_magnitude (c ∷ cs) = if is_digit c then ok (read_digits 0 (c ∷ cs)) else fault invalid_argument

abbrev negate : ℕ → ℤ
negate zero = pos 0
negate (suc n) = negsuc n

unfoldable pub read_signed : Bytes → Run ℤ
unfolding read_magnitude
read_signed [] = fault invalid_argument
read_signed (c ∷ cs) =
    if c == b'-'
    then read_magnitude cs >>= (λ n. ok (negate n))
    else if c == b'+'
    then read_magnitude cs >>= (λ n. ok (pos n))
    else read_magnitude (c ∷ cs) >>= (λ n. ok (pos n))

-- Text behind the number is ignored. A value that is no `int` throws `std::out_of_range`.
unfoldable pub stoi : Bytes → Run ℤ
unfolding drop_space read_signed
stoi s = do n ← read_signed (drop_space s); if fits_int n then ok n else fault out_of_range

-- `s.substr(pos)` throws `std::out_of_range` past the end.
unfoldable pub substr : Bytes → ℕ → Run Bytes
substr s from = if leb from (length s) then ok (drop from s) else fault out_of_range
