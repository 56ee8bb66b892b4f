-- ===== src/BasicDb/Printed.antt =====
-- The log that a history of calls prints, as lines of words.
use ycsb_c_copy.BasicDb.{
  newline, print_fields, print_values, fields_text, read, update, insert, delete, basic_db,
}
use ycsb_c_copy.Db.{KvPair, k_ok}
use ycsb_c_copy.Db.History.{
  Call, insert_call, update_call, delete_call, read_call, perform, perform_all,
}
use ycsb_c_copy.Prelude.{
  ◌≡◌, refl, sym, ◌∙◌, ap, List, [], ◌∷◌, ◌++◌, Bytes, codes, length, replicate, append_assoc,
  append-nil,
}
use ycsb_c_copy.Run.{ok}

-- Words with a space between.
abbrev pub unwords : List Bytes → Bytes
unwords [] = []
unwords (w ∷ []) = w
unwords (w ∷ v ∷ ws) = w ++ b' ' ∷ unwords (v ∷ ws)

-- `name=value` for each field.
abbrev pub settings : List KvPair → List Bytes
settings [] = []
settings ((f, v) ∷ values) = (f ++ b'=' ∷ v) ∷ settings values

abbrev pub words_of : Call → List Bytes
words_of (insert_call t k vs) = codes "INSERT" ∷ t ∷ k ∷ codes "[" ∷ (settings vs ++ codes "]" ∷ [])
words_of (update_call t k vs) = codes "UPDATE" ∷ t ∷ k ∷ codes "[" ∷ (settings vs ++ codes "]" ∷ [])
words_of (delete_call t k) = codes "DELETE" ∷ t ∷ k ∷ []
words_of (read_call t k fs) = codes "READ" ∷ t ∷ k ∷ codes "[" ∷ (fs ++ codes "]" ∷ [])

-- A line for each call.
abbrev pub log : List Call → Bytes
log [] = []
log (c ∷ cs) = unwords (words_of c) ++ (newline ++ log cs)

print_fields-unwords :
    (w : Bytes) (fs : List Bytes)
    → unwords (w ∷ (fs ++ codes "]" ∷ [])) ≡ w ++ b' ' ∷ (print_fields fs ++ codes "]")
unfolding print_fields
print_fields-unwords w [] = refl
print_fields-unwords w (f ∷ fs) =
    ap (λ x. w ++ b' ' ∷ x)
      (print_fields-unwords f fs ∙ sym (append_assoc f (b' ' ∷ print_fields fs) (codes "]")))

print_values-unwords :
    (w : Bytes) (vs : List KvPair)
    → unwords (w ∷ (settings vs ++ codes "]" ∷ [])) ≡ w ++ b' ' ∷ (print_values vs ++ codes "]")
unfolding print_values
print_values-unwords w [] = refl
print_values-unwords w ((f, v) ∷ vs) =
    ap (λ x. w ++ b' ' ∷ x) (print_values-unwords (f ++ b'=' ∷ v) vs ∙ simp append_assoc)

perform-printed :
    (c : Call) (out : Bytes)
    → perform basic_db c out ≡ ok ((k_ok, []), out ++ (unwords (words_of c) ++ newline))
unfolding read update insert delete fields_text
perform-printed (insert_call t k vs) out =
    rw (print_values-unwords (codes "[") vs) (simp append_assoc)
perform-printed (update_call t k vs) out =
    rw (print_values-unwords (codes "[") vs) (simp append_assoc)
perform-printed (delete_call t k) out = simp append_assoc
perform-printed (read_call t k fs) out =
    rw (print_fields-unwords (codes "[") fs) (simp append_assoc)

-- Any history of inserts, updates, deletes and reads of listed fields on `BasicDB` returns kOK and no
-- field for each call and prints one line for each, of the call's name, the table, the key and, in
-- brackets, the fields or the settings `name=value`, with single spaces between.
pub perform_all-printed :
    (cs : List Call) (out : Bytes)
    → perform_all basic_db cs out ≡ ok (replicate (length cs) (k_ok, []), out ++ log cs)
perform_all-printed [] out = ap (λ x. ok ([], x)) (sym (append-nil out))
perform_all-printed (c ∷ cs) out =
    rw (perform-printed c out, perform_all-printed cs (out ++ (unwords (words_of c) ++ newline)))
      (ap (λ x. ok ((k_ok, []) ∷ replicate (length cs) (k_ok, []), x)) (simp append_assoc))
