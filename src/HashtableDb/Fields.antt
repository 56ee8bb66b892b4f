-- ===== src/HashtableDb/Fields.antt =====
-- What the loops over fields do to a field table, as a partial function on names.
use mathlib.Core.Path.{fun_ext}
use ycsb_c_copy.Db.{KvPair, k_ok, k_error_conflict}
use ycsb_c_copy.HashString.{c_str}
use ycsb_c_copy.HashtableDb.{
  Tables, FieldHashtable, copy_string, read_fields, fill_fields, update_fields, update_field,
  insert_fields,
}
use ycsb_c_copy.Prelude.{
  ℕ, ◌≡◌, refl, sym, ◌∙◌, not, Option-cases, Bool-cases, equal_refl, inl, inr, Bool, true, false,
  List, [], ◌∷◌, Option, none, some, if◌then◌else◌, Bytes, equal, arith,
}
use ycsb_c_copy.Run.{ok}
use ycsb_c_copy.StringHashtable.{IsTable, set_self}

-- A record as its readers see it: C strings to C strings.
abbrev pub Record : Type 0
Record = Bytes → Option Bytes

abbrev pub empty : Record
empty f = none

abbrev pub put : Record → KvPair → Record
put r (f, v) q = if equal (c_str f) q then some (c_str v) else r q

abbrev pub has : Record → Bytes → Bool
has r f = elim (r (c_str f)) [ none ↦ false | some v ↦ true ]

-- Every field is written, so a later one wins.
abbrev pub put_all : Record → List KvPair → Record
put_all r [] = r
put_all r (e ∷ es) = put_all (put r e) es

-- Fields are added, so an earlier one wins.
abbrev pub add_all : Record → List KvPair → Record
add_all r [] = r
add_all r (e ∷ es) = add_all (if has r e.0 then r else put r e) es

-- Fields are added up to the first that is there already.
abbrev pub insert_all : Record → List KvPair → ℕ × Record
insert_all r [] = (k_ok, r)
insert_all r (e ∷ es) =
    let rest = insert_all (put r e) es in if has r e.0 then (k_error_conflict, r) else rest

abbrev pub pick_all : Record → List Bytes → List KvPair
pick_all r [] = []
pick_all r (f ∷ fs) = elim (r (c_str f)) [ none ↦ pick_all r fs | some v ↦ (f, v) ∷ pick_all r fs ]

-- Both tables keep their promise, and a new field table is empty.
pub record AreTables (𝒯 : Tables) : Type 1 where
  pub fields_table : IsTable 𝒯.fields
  pub keys_table : IsTable 𝒯.keys
  pub new_field_hashtable-IsGood : fields_table.IsGood 𝒯.new_field_hashtable
  pub new_field_hashtable-empty : fields_table.view 𝒯.new_field_hashtable ≡ empty

module _ (𝒯 : Tables) (tables : AreTables 𝒯) where
  open tables use {fields_table}

  abbrev pub view : FieldHashtable 𝒯 → Record
  view = fields_table.view

  abbrev pub IsGood : FieldHashtable 𝒯 → Type 0
  IsGood = fields_table.IsGood

  pub read_fields-pick_all :
      (t : FieldHashtable 𝒯) (fs : List Bytes)
      → IsGood t
      → read_fields 𝒯 t fs ≡ ok (pick_all (view t) fs)
  unfolding read_fields
  read_fields-pick_all t [] h = refl
  read_fields-pick_all t (f ∷ fs) h =
      rw (fields_table.get-view t (c_str f) h, read_fields-pick_all t fs h) (ground arith)

  -- One `Insert` of a field.
  insert-put :
      (t : FieldHashtable 𝒯) (f v : Bytes)
      → IsGood t
      → (t' : FieldHashtable 𝒯) × (𝒯.fields.insert t (some (c_str f)) (copy_string v)
          ≡ ok (not (has (view t) f), t'))
        × IsGood t'
        × (view t' ≡ (if has (view t) f then view t else put (view t) (f, v)))
  unfolding copy_string
  insert-put t f v h =
      let (t', run, good, reads, holds) = fields_table.insert-view t (c_str f) (c_str v) h in
      elim (Option-cases (view t (c_str f))) [
        | inl e ↦
            let absent : has (view t) f ≡ false = rw (has, e) in
            (t', run ∙ rw (absent, e), good, fun_ext (λ q. reads q ∙ rw (absent, e)))
        | inr (old, e) ↦
            let present : has (view t) f ≡ true = rw (has, e) in
            (
              t',
              run ∙ rw (present, e),
              good,
              fun_ext (λ q.
                  reads q ∙ rw (present, e) (sym (set_self (view t) (c_str f) (some old) e q))),
            )
      ]

  -- One round of `Update` on a field table that the key had.
  update_field-put :
      (t : FieldHashtable 𝒯) (e : KvPair)
      → IsGood t
      → (t' : FieldHashtable 𝒯) × (update_field 𝒯 t e ≡ ok t')
        × IsGood t'
        × (view t' ≡ put (view t) e)
  unfolding update_field copy_string
  update_field-put t (f, v) h =
      let (t', run, good, reads, holds) = fields_table.update-view t (c_str f) (c_str v) h in
      elim (Option-cases (view t (c_str f))) [
        | inl e ↦
            let still : view t' (c_str f) ≡ none = reads (c_str f) ∙ rw (e, equal_refl (c_str f)) in
            let (t'', run', good', reads', holds') =
              fields_table.insert-view t' (c_str f) (c_str v) good in
            (
              t'',
              rw (run, e, run'),
              good',
              fun_ext (λ q. reads' q ∙ rw still (rw (reads q) (ground arith))),
            )
        | inr (old, e) ↦ (t', rw (run, e), good, fun_ext (λ q. reads q ∙ rw e))
      ]

  pub fill_fields-add_all :
      (t : FieldHashtable 𝒯) (es : List KvPair)
      → IsGood t
      → (t' : FieldHashtable 𝒯) × (fill_fields 𝒯 t es ≡ ok t')
        × IsGood t'
        × (view t' ≡ add_all (view t) es)
  unfolding fill_fields
  fill_fields-add_all t [] h = (t, refl, h, refl)
  fill_fields-add_all t ((f, v) ∷ es) h =
      let (t', run, h', w) = insert-put t f v h in
      let (t'', run', h'', w') = fill_fields-add_all t' es h' in
      (t'', rw (run, run'), h'', w' ∙ rw w)

  pub update_fields-put_all :
      (t : FieldHashtable 𝒯) (es : List KvPair)
      → IsGood t
      → (t' : FieldHashtable 𝒯) × (update_fields 𝒯 t es ≡ ok t')
        × IsGood t'
        × (view t' ≡ put_all (view t) es)
  unfolding update_fields
  update_fields-put_all t [] h = (t, refl, h, refl)
  update_fields-put_all t (e ∷ es) h =
      let (t', run, h', w) = update_field-put t e h in
      let (t'', run', h'', w') = update_fields-put_all t' es h' in
      (t'', rw (run, run'), h'', w' ∙ rw w)

  pub insert_fields-insert_all :
      (t : FieldHashtable 𝒯) (es : List KvPair)
      → IsGood t
      → (t' : FieldHashtable 𝒯) × (insert_fields 𝒯 t es ≡ ok ((insert_all (view t) es).0, t'))
        × IsGood t'
        × (view t' ≡ (insert_all (view t) es).1)
  unfolding insert_fields
  insert_fields-insert_all t [] h = (t, refl, h, refl)
  insert_fields-insert_all t ((f, v) ∷ es) h =
      let (t', run, h', w) = insert-put t f v h in
      elim (Bool-cases (has (view t) f)) [
        | inl e ↦ (t', rw (run, e), h', w ∙ rw e)
        | inr e ↦
            let (t'', run', h'', w') = insert_fields-insert_all t' es h' in
            let w : view t' ≡ put (view t) (f, v) = w ∙ rw e in
            (t'', rw (run, e) (rw w at run'), h'', w' ∙ rw (w, e))
      ]
