-- ===== src/Schema/Oneof/Checked.antt =====
-- What the check of oneofs finds.
use hyperway.Prelude.{
  ℕ, suc, ◌≡◌, refl, ap, ◌∙◌, true, false, ◌&&◌, Bool-cases, inl, inr, some, List, [], ◌∷◌, ◌++◌,
  append_assoc, All, ltb, length, if◌then◌else◌,
}
use hyperway.Prelude.Str.{Str, str, str_eq, to_lower}
use hyperway.Schema.Oneof.{
  SubField, Content, Field, OneofGroup, struct, pointer, other_pointer, other, is_field_set,
  indexed, grouped, group_of, groups_of, detect_oneof_groups, title, field_by_name, nth, set_field,
  set_fields, Verdict, accepted, violated, judged, validate_content, validate_found,
  validate_oneof_group, and_then, validate_groups, validate_oneof,
}

-- the exported fields that are set
unfoldable pub set_names : List SubField → List Str
set_names [] = []
set_names (sub ∷ more) =
    let rest = set_names more in
    if sub.is_exported && is_field_set sub.value then sub.name ∷ rest else rest

unfoldable pub exported_count : List SubField → ℕ
exported_count [] = 0
exported_count (sub ∷ more) = let n = exported_count more in if sub.is_exported then suc n else n

-- a oneof with more than one field that is set
unfoldable pub violation : Str → List SubField → Verdict
violation name subs =
    if ltb (exported_count subs) 2
    then accepted
    else if ltb 1 (length (set_names subs))
    then violated (to_lower name) (set_names subs)
    else accepted

unfoldable pub violation_of : Str → Content → Verdict
violation_of name (struct subs) = violation name subs
violation_of name (pointer true subs) = accepted
violation_of name (pointer false subs) = violation name subs
violation_of name (other_pointer is_nil) = accepted
violation_of name other = accepted

-- the first oneof of a struct that has more than one field set
unfoldable pub first_violation : List Field → Verdict
first_violation [] = accepted
first_violation (field ∷ more) =
    if field.is_exported && str_eq field.tag (str "oneof")
    then and_then (violation_of field.name field.content) (first_violation more)
    else first_violation more

nth-append :
    (before : List SubField) (sub : SubField) (more : List SubField)
    → nth (length before) (before ++ sub ∷ more) ≡ some sub
unfolding nth
nth-append [] sub more = refl
nth-append (x ∷ before) sub more = nth-append before sub more

length-indexed : (j : ℕ) (subs : List SubField) → length (indexed j subs) ≡ exported_count subs
unfolding indexed exported_count
length-indexed j [] = refl
length-indexed j (sub ∷ more) = elim (Bool-cases sub.is_exported) [
  | inl exported ↦ simp (exported) (ap suc (length-indexed (suc j) more))
  | inr hidden ↦ simp (hidden) (length-indexed (suc j) more)
]

length_one_more :
    (before : List SubField) (sub : SubField) → length (before ++ sub ∷ []) ≡ suc (length before)
length_one_more [] sub = refl
length_one_more (x ∷ before) sub = ap suc (length_one_more before sub)

set_fields-indexed :
    (before subs : List SubField)
    → set_fields (before ++ subs) (indexed (length before) subs) ≡ some (set_names subs)
unfolding set_fields indexed set_names set_field
set_fields-indexed before [] = refl
set_fields-indexed before (sub ∷ more) =
    let rest : set_fields (before ++ sub ∷ more) (indexed (suc (length before)) more)
        ≡ some (set_names more) =
      rw (append_assoc before (sub ∷ []) more, length_one_more before sub) at
        (set_fields-indexed (before ++ sub ∷ []) more) in
    elim (Bool-cases sub.is_exported) [
      | inl exported ↦ simp (exported, nth-append before sub more, rest) refl
      | inr hidden ↦ simp (hidden) rest
    ]

-- a oneof that its group's name finds, and its field's content gives the group's fields
judged-violation :
    (name : Str) (subs : List SubField) (all : List Field) (more : List OneofGroup)
    → (validate_oneof_group all (record { name = to_lower name; fields = indexed 0 subs })
        ≡ judged (to_lower name) (set_fields subs (indexed 0 subs)))
    → validate_groups all (grouped name (indexed 0 subs) ++ more)
      ≡ and_then (violation name subs) (validate_groups all more)
unfolding validate_groups grouped violation and_then judged
judged-violation name subs all more h =
    let count = length-indexed 0 subs in
    elim (Bool-cases (ltb (exported_count subs) 2)) [
      | inl few ↦ rw (count, few) refl
      | inr enough ↦
          rw (count, enough)
            (ap (λ v. and_then v (validate_groups all more))
              (h ∙ rw (set_fields-indexed [] subs) refl))
    ]

grouped_accepted :
    (name : Str) (fields : List (Str × ℕ)) (all : List Field) (more : List OneofGroup)
    → validate_oneof_group all (record { name = to_lower name; fields = fields }) ≡ accepted
    → validate_groups all (grouped name fields ++ more) ≡ validate_groups all more
unfolding validate_groups grouped and_then
grouped_accepted name fields all more h = elim (Bool-cases (ltb (length fields) 2)) [
  | inl few ↦ rw few refl
  | inr enough ↦ rw enough (ap (λ v. and_then v (validate_groups all more)) h)
]

-- a field that its own name finds, and that has the name of a group by `strings.Title`
abbrev pub IsNamed : List Field → Field → Type 0
IsNamed all field =
    (field_by_name field.name all ≡ some field) × (title (to_lower field.name) ≡ field.name)

content-violation_of :
    (all : List Field) (name : Str) (content : Content) (more : List OneofGroup) (field : Field)
    → field_by_name (title (to_lower name)) all ≡ some field
    → field.content ≡ content
    → validate_groups all (group_of name content ++ more)
      ≡ and_then (violation_of name content) (validate_groups all more)
unfolding group_of violation_of and_then validate_oneof_group validate_found validate_content
content-violation_of all name (struct subs) more field found same =
    judged-violation name subs all more (rw (found, same) refl)
content-violation_of all name (pointer false subs) more field found same =
    judged-violation name subs all more (rw (found, same) refl)
content-violation_of all name (pointer true subs) more field found same =
    grouped_accepted name (indexed 0 subs) all more (rw (found, same) refl)
content-violation_of all name (other_pointer is_nil) more field found same = refl
content-violation_of all name other more field found same = refl

validate_groups-first_violation :
    (all fields : List Field)
    → All (IsNamed all) fields
    → validate_groups all (detect_oneof_groups fields) ≡ first_violation fields
unfolding validate_groups detect_oneof_groups groups_of first_violation
validate_groups-first_violation all [] h = refl
validate_groups-first_violation all (field ∷ more) ((found, titled), named) =
    let rest = validate_groups-first_violation all more named in
    elim (Bool-cases (field.is_exported && str_eq field.tag (str "oneof"))) [
      | inl oneof ↦ simp (oneof) (
          content-violation_of all field.name field.content (detect_oneof_groups more) field
            (ap (λ n. field_by_name n all) titled ∙ found) refl
          ∙ ap (and_then (violation_of field.name field.content)) rest)
      | inr no_oneof ↦ simp (no_oneof) rest
    ]

-- Where each field of a struct is the one of its name and its name is a capital letter and then none, the check gives
-- the first oneof that has more than one field set, with these fields, and accepts the struct if there is none; it never
-- panics.
pub validate_oneof-first_violation :
    (fields : List Field)
    → All (IsNamed fields) fields
    → validate_oneof fields ≡ first_violation fields
unfolding validate_oneof
validate_oneof-first_violation fields named = validate_groups-first_violation fields fields named
