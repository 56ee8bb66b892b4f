-- ===== src/Utils/Trimming.antt =====
-- `Trim` cuts the spaces at both ends, and nothing else.
use mathlib.Core.List.{reverse, reverse-append, reverse-reverse}
use ycsb_c_copy.Prelude.{
  ◌≡◌, refl, ap, ◌∙◌, sym, true, false, [], ◌∷◌, ◌++◌, Bytes, Bool-cases, inl, inr,
}
use ycsb_c_copy.Number.{is_space, drop_space}
use ycsb_c_copy.Utils.{trim}

-- Every byte is a space.
abbrev pub Spaces : Bytes → Type 0
Spaces [] = Unit
Spaces (c ∷ cs) = (is_space c ≡ true) × Spaces cs

-- The text is empty or begins with a byte that is no space.
abbrev pub BeginsClean : Bytes → Type 0
BeginsClean [] = Unit
BeginsClean (c ∷ cs) = is_space c ≡ false

pub drop_space_lem :
    (s : Bytes) → (a : Bytes) × Spaces a × (s ≡ a ++ drop_space s) × BeginsClean (drop_space s)
unfolding drop_space
drop_space_lem [] = ([], tt, refl, tt)
drop_space_lem (c ∷ cs) = elim (Bool-cases (is_space c)) [
  | inl e ↦ let (a, h, f, g) = drop_space_lem cs in rw e (c ∷ a, (e, h), ap (◌∷◌ c) f, g)
  | inr e ↦ rw e ([], tt, refl, e)
]

pub Spaces-append : (a b : Bytes) → Spaces a → Spaces b → Spaces (a ++ b)
Spaces-append [] b h k = k
Spaces-append (c ∷ a) b h k = (h.0, Spaces-append a b h.1 k)

pub Spaces-reverse : (a : Bytes) → Spaces a → Spaces (reverse a)
Spaces-reverse [] h = tt
Spaces-reverse (c ∷ a) h =
    rw (reverse-append (c ∷ []) a)
      (Spaces-append (reverse a) (c ∷ []) (Spaces-reverse a h.1) (h.0, tt))

BeginsClean-prefix : (a b : Bytes) → BeginsClean (a ++ b) → BeginsClean a
BeginsClean-prefix [] b h = tt
BeginsClean-prefix (c ∷ a) b h = h

-- `Trim` splits any text into spaces, its result, and spaces; the result neither begins nor ends
-- with a space.
pub trim_lem :
    (s : Bytes)
    → (a b : Bytes) × (s ≡ a ++ (trim s ++ b))
      × Spaces a
      × Spaces b
      × BeginsClean (trim s)
      × BeginsClean (reverse (trim s))
unfolding trim
trim_lem s =
    let (a, ha, ea, clean) = drop_space_lem s in
    let (b, hb, eb, ends) = drop_space_lem (reverse (drop_space s)) in
    let d = drop_space (reverse (drop_space s)) in
    let split : drop_space s ≡ reverse d ++ reverse b =
      sym (reverse-reverse (drop_space s)) ∙ ap reverse eb ∙ reverse-append b d in
    (
      a,
      reverse b,
      ea ∙ ap (λ t. a ++ t) split,
      ha,
      Spaces-reverse b hb,
      BeginsClean-prefix (reverse d) (reverse b) (rw split at clean),
      rw (reverse-reverse d) ends,
    )

pub drop_space-Spaces : (a s : Bytes) → Spaces a → BeginsClean s → drop_space (a ++ s) ≡ s
unfolding drop_space
drop_space-Spaces [] [] h k = refl
drop_space-Spaces [] (c ∷ s) h k = rw k
drop_space-Spaces (c ∷ a) s h k = rw h.0 (drop_space-Spaces a s h.1 k)

-- The text neither begins nor ends with a space.
abbrev pub IsClean : Bytes → Type 0
IsClean s = BeginsClean s × BeginsClean (reverse s)

drop_space_all : (a : Bytes) → Spaces a → drop_space a ≡ []
unfolding drop_space
drop_space_all [] h = refl
drop_space_all (c ∷ a) h = rw h.0 (drop_space_all a h.1)

-- `Trim` takes off exactly the spaces round a text that has none at its ends.
pub trim-padded : (a k b : Bytes) → Spaces a → Spaces b → IsClean k → trim (a ++ (k ++ b)) ≡ k
unfolding trim
trim-padded a [] b ha hb h =
    rw (drop_space_all (a ++ b) (Spaces-append a b ha hb)) (unfold drop_space in refl)
trim-padded a (c ∷ k) b ha hb h =
    rw (drop_space-Spaces a (c ∷ (k ++ b)) ha h.0, reverse-append (c ∷ k) b)
      (rw (drop_space-Spaces (reverse b) (reverse (c ∷ k)) (Spaces-reverse b hb) h.1)
        (reverse-reverse (c ∷ k)))
