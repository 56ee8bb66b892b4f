-- ===== src/Properties/Loading.antt =====
-- What `Load` makes of a file that is written line by line.
use ycsb_c_copy.Prelude.{
  ℕ, ◌≡◌, refl, ◌∙◌, false, List, [], ◌∷◌, ◌++◌, append_assoc, append-nil, arith, Bytes, ◌==◌, some,
  none,
}
use ycsb_c_copy.Properties.{Properties, set_property, cut, is_comment, load_line, load_from, load}
use ycsb_c_copy.Run.{ok}
use ycsb_c_copy.Utils.Trimming.{Spaces, IsClean, trim-padded}

-- No byte of the text is `c`.
abbrev pub Lacks : ℕ → Bytes → Type 0
Lacks c [] = Unit
Lacks c (b ∷ bs) = ((b == c) ≡ false) × Lacks c bs

cut-Lacks : (k v : Bytes) → Lacks b'=' k → cut (k ++ b'=' ∷ v) ≡ some (k, v)
unfolding cut
cut-Lacks [] v h = refl
cut-Lacks (c ∷ k) v h = rw h.0 (rw (cut-Lacks k v h.1))

cut-none : (s : Bytes) → Lacks b'=' s → cut s ≡ none
unfolding cut
cut-none [] h = refl
cut-none (c ∷ s) h = rw h.0 (rw (cut-none s h.1))

load_from-line :
    (p : Properties) (seen line rest : Bytes)
    → Lacks b'\n' line
    → load_from p seen (line ++ b'\n' ∷ rest) ≡ load_from (load_line p (seen ++ line)) [] rest
unfolding load_from
load_from-line p seen [] rest h = rw append-nil
load_from-line p seen (c ∷ line) rest h =
    rw (h.0, load_from) (load_from-line p (seen ++ c ∷ []) line rest h.1 ∙ rw append_assoc)

-- A line of a property file: a comment, a line without `=`, or a setting with spaces round its
-- key and its value.
pub data Line : Type 0 where
  comment : Bytes → Line
  junk : Bytes → Line
  setting : (before key after before_value value after_value : Bytes) → Line

abbrev pub written : Line → Bytes
written (comment s) = b'#' ∷ s
written (junk s) = s
written (setting a k b c v d) = (a ++ (k ++ b)) ++ b'=' ∷ (c ++ (v ++ d))

abbrev pub IsLine : Line → Type 0
IsLine (comment s) = Unit
IsLine (junk s) = Lacks b'=' s
IsLine (setting a k b c v d) =
    (Spaces a × Spaces b × Spaces c × Spaces d)
    × (IsClean k × IsClean v)
    × (Lacks b'=' (a ++ (k ++ b)) × (is_comment (k ++ b) ≡ false))

abbrev pub meaning : Properties → Line → Properties
meaning p (comment s) = p
meaning p (junk s) = p
meaning p (setting a k b c v d) = set_property p k v

is_comment-padded :
    (a s rest : Bytes)
    → Spaces a
    → is_comment s ≡ false
    → is_comment ((a ++ s) ++ b'=' ∷ rest) ≡ false
unfolding is_comment
is_comment-padded [] [] rest h e = refl
is_comment-padded [] (c ∷ s) rest h e = e
is_comment-padded (c ∷ a) s rest h e = ground arith

load_line-meaning : (p : Properties) (l : Line) → IsLine l → load_line p (written l) ≡ meaning p l
unfolding load_line
load_line-meaning p (comment s) h = unfold is_comment in refl
load_line-meaning p (junk s) h = rw (cut-none s h) (ground arith)
load_line-meaning p (setting a k b c v d) ((ha, hb, hc, hd), (hk, hv), (he, hn)) =
    rw (is_comment-padded a (k ++ b) (c ++ (v ++ d)) ha hn, cut-Lacks _ (c ++ (v ++ d)) he)
      (rw (trim-padded a k b ha hb hk, trim-padded c v d hc hd hv))

abbrev pub AreLines : List Line → Type 0
AreLines [] = Unit
AreLines (l ∷ ls) = (IsLine l × Lacks b'\n' (written l)) × AreLines ls

abbrev pub file : List Line → Bytes
file [] = []
file (l ∷ ls) = written l ++ b'\n' ∷ file ls

abbrev pub meanings : Properties → List Line → Properties
meanings p [] = p
meanings p (l ∷ ls) = meanings (meaning p l) ls

load_from-meanings :
    (p : Properties) (ls : List Line) → AreLines ls → load_from p [] (file ls) ≡ meanings p ls
load_from-meanings p [] h = unfold load_from load_line is_comment cut in refl
load_from-meanings p (l ∷ ls) ((h, n), hs) =
    load_from-line p [] (written l) (file ls) n
    ∙ rw (load_line-meaning p l h) (load_from-meanings (meaning p l) ls hs)

-- `Load` of a file of comments, lines without `=` and settings padded with spaces, each line ended
-- by a newline, makes the settings in the order of the file, each key and value without the
-- spaces round it, and nothing else.
pub load-meanings :
    (p : Properties) (ls : List Line) → AreLines ls → load p (some (file ls)) ≡ ok (meanings p ls)
unfolding load
load-meanings p ls h = rw (load_from-meanings p ls h)
