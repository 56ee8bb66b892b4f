-- ===== src/RedisDb/Commands.antt =====
-- The server reads back from the command of `Update` the words that went into it.
use ycsb_c_copy.Db.{KvPair}
use ycsb_c_copy.Prelude.{
  ℕ, ◌+◌, ◌≡◌, refl, sym, ◌∙◌, ap, Bool, true, false, List, [], ◌∷◌, ◌++◌, Bytes, codes, length,
  length-append, ◌==◌, if◌then◌else◌, append-nil, append_assoc, arith, Bool-cases, inl, inr, ==_iff,
}
use ycsb_c_copy.RedisDb.{has_space, add_lengths, append_fields, update_command}
use ycsb_c_copy.Run.{ok, ◌>>=◌}

-- A word in front of others; an empty one is none.
abbrev keep : Bytes → List Bytes → List Bytes
keep [] ws = ws
keep (c ∷ w) ws = (c ∷ w) ∷ ws

-- The words of a text between runs of spaces; `word` is what has been read of the first.
unfoldable pub words : Bytes → Bytes → List Bytes
words word [] = keep word []
words word (c ∷ s) =
    let next = words [] s in
    let longer = words (word ++ c ∷ []) s in if c == b' ' then keep word next else longer

abbrev pub is_empty : Bytes → Bool
is_empty [] = true
is_empty (c ∷ w) = false

-- A text that is one word.
abbrev pub IsWord : Bytes → Type 0
IsWord w = (has_space w ≡ false) × (is_empty w ≡ false)

keep_word : (w : Bytes) (ws : List Bytes) → is_empty w ≡ false → keep w ws ≡ w ∷ ws
keep_word [] ws h = cc
keep_word (c ∷ w) ws h = refl

-- The names and values of the fields, in order.
abbrev pub flatten : List KvPair → List Bytes
flatten [] = []
flatten ((f, v) ∷ values) = f ∷ v ∷ flatten values

abbrev pub AreWords : List KvPair → Type 0
AreWords [] = Unit
AreWords ((f, v) ∷ values) = IsWord f × IsWord v × AreWords values

-- What the fields add to the command.
abbrev pub tail : List KvPair → Bytes
tail [] = []
tail ((f, v) ∷ values) = b' ' ∷ (f ++ b' ' ∷ (v ++ tail values))

append_fields-tail :
    (cmd : Bytes) (values : List KvPair)
    → AreWords values
    → append_fields cmd values ≡ ok (cmd ++ tail values)
unfolding append_fields
append_fields-tail cmd [] h = ap ok (sym (append-nil cmd))
append_fields-tail cmd ((f, v) ∷ values) (hf, hv, h) =
    rw (hf.0, hv.0)
      (append_fields-tail (cmd ++ b' ' ∷ (f ++ b' ' ∷ v)) values h ∙ simp append_assoc)

length-tail : (len : ℕ) (values : List KvPair) → add_lengths len values ≡ len + length (tail values)
unfolding add_lengths
length-tail len [] = omega arith
length-tail len ((f, v) ∷ values) = omega (
  arith,
  length-tail (len + (length f + length v + 2)) values,
  length-append f (b' ' ∷ (v ++ tail values)),
  length-append v (tail values),
)

words_last : (word w : Bytes) → has_space w ≡ false → words word w ≡ keep (word ++ w) []
unfolding words has_space
words_last word [] h = ap (λ x. keep x []) (sym (append-nil word))
words_last word (c ∷ w) h = elim (Bool-cases (c == b' ')) [
  | inl e ↦ absurd (ground arith)
  | inr e ↦ rw e (
      words_last (word ++ c ∷ []) w (ground arith)
      ∙ ap (λ x. keep x []) (append_assoc word (c ∷ []) w))
]

words_next :
    (word w rest : Bytes)
    → has_space w ≡ false
    → words word (w ++ b' ' ∷ rest) ≡ keep (word ++ w) (words [] rest)
unfolding words has_space
words_next word [] rest h = ap (λ x. keep x (words [] rest)) (sym (append-nil word))
words_next word (c ∷ w) rest h = elim (Bool-cases (c == b' ')) [
  | inl e ↦ absurd (ground arith)
  | inr e ↦ rw e (
      words_next (word ++ c ∷ []) w rest (ground arith)
      ∙ ap (λ x. keep x (words [] rest)) (append_assoc word (c ∷ []) w))
]

words-head : (w rest : Bytes) → IsWord w → words [] (w ++ b' ' ∷ rest) ≡ w ∷ words [] rest
words-head w rest h = words_next [] w rest h.0 ∙ keep_word w (words [] rest) h.1

words-single : (w : Bytes) → IsWord w → words [] w ≡ w ∷ []
words-single w h = words_last [] w h.0 ∙ keep_word w [] h.1

words-tail :
    (w : Bytes) (values : List KvPair)
    → IsWord w
    → AreWords values
    → words [] (w ++ tail values) ≡ w ∷ flatten values
words-tail w [] hw h = ap (words []) (append-nil w) ∙ words-single w hw
words-tail w ((f, v) ∷ values) hw (hf, hv, h) =
    words-head w (f ++ b' ' ∷ (v ++ tail values)) hw
    ∙ ap (◌∷◌ w) (words-head f (v ++ tail values) hf ∙ ap (◌∷◌ f) (words-tail v values hv h))

-- The words of two texts with a space between.
pub words-one : (v w : Bytes) → IsWord v → IsWord w → words [] (v ++ b' ' ∷ w) ≡ v ∷ w ∷ []
words-one v w hv hw = words-head v w hv ∙ ap (◌∷◌ v) (words-single w hw)

-- When the key, the field names and the values are words, `Update` passes its assertions, and the
-- words of its command are `HMSET`, the key, and the names and values in order.
pub update_command-words :
    (key : Bytes) (values : List KvPair)
    → IsWord key
    → AreWords values
    → (update_command key values ≡ ok (codes "HMSET" ++ b' ' ∷ (key ++ tail values)))
      × (words [] (codes "HMSET" ++ b' ' ∷ (key ++ tail values))
          ≡ codes "HMSET" ∷ key ∷ flatten values)
unfolding update_command
update_command-words key values hk h =
    let start : Bytes = codes "HMSET" ++ b' ' ∷ key in
    let cmd = start ++ tail values in
    let length_is : (length cmd == add_lengths (length (codes "HMSET") + length key + 1) values)
        ≡ true =
      (==_iff (length cmd) _).1 (
        omega (
          arith,
          length-append start (tail values),
          length-append (codes "HMSET") (b' ' ∷ key),
          length-tail (length (codes "HMSET") + length key + 1) values,
        )) in
    (
      rw (append_fields-tail start values h, ◌>>=◌, length_is),
      words-head (codes "HMSET") (key ++ tail values) (unfold has_space in (refl, refl))
          ∙ ap (◌∷◌ (codes "HMSET")) (words-tail key values hk h),
    )
