-- ===== src/Reflect/Keys.antt =====
-- Which field a message's name finds.
use hyperway.Prelude.{
  ℕ, ◌+◌, ◌≡◌, refl, sym, ap, ◌∙◌, Bool, true, false, not, ◌&&◌, ◌||◌, Bool-cases, arith, inl, inr,
  Option, none, some, List, [], ◌∷◌, if◌then◌else◌,
}
use hyperway.Prelude.Str.{Str, str_eq, lookup, insert}
use hyperway.Prelude.Str.Laws.{str_eq_iff, lookup-insert}
use hyperway.Reflect.{
  StructField, FieldMapping, Mappings, to_snake, to_camel, json_name_of, field_name_of, insert_if,
  add_field, add_fields, index_of, get_field_mappings, find_struct_field,
}

-- whether a field answers to a name: its own, or that of its tag, as it is, in snake case, or in camel case from there
unfoldable pub answers : Str → StructField → Bool
answers key field =
    let name = field_name_of field in
    field.is_exported
    && (str_eq name key || str_eq (to_snake name) key || str_eq (to_camel (to_snake name)) key)

abbrev pub or_else : Option ℕ → Option ℕ → Option ℕ
or_else (some i) other = some i
or_else none other = other

-- the index of the last field that answers to a name, given the index of the first
unfoldable pub last_answering : ℕ → Str → List StructField → Option ℕ
last_answering i key [] = none
last_answering i key (field ∷ more) =
    or_else (last_answering (i + 1) key more) (if answers key field then some i else none)

index_of-insert :
    (key k : Str) (mapping : FieldMapping) (m : Mappings)
    → index_of (lookup key (insert k mapping m))
      ≡ (if str_eq k key then some mapping.field_index else index_of (lookup key m))
unfolding index_of
index_of-insert key k mapping m = elim (Bool-cases (str_eq k key)) [
  | inl same ↦ ap index_of (lookup-insert k key mapping m) ∙ rw same refl
  | inr differs ↦ ap index_of (lookup-insert k key mapping m) ∙ rw differs refl
]

index_of-insert_if :
    (key : Str) (b : Bool) (k : Str) (mapping : FieldMapping) (m : Mappings)
    → index_of (lookup key (insert_if b k mapping m))
      ≡ (if b && str_eq k key then some mapping.field_index else index_of (lookup key m))
index_of-insert_if key false k mapping m = refl
index_of-insert_if key true k mapping m = index_of-insert key k mapping m

-- four choices in a row, of which two imply another
chosen :
    (a b c n j : Bool) (i : ℕ) (x : Option ℕ)
    → (n ≡ true → c ≡ true → a ≡ true)
    → (j ≡ true → a ≡ true)
    → (if not n && c
        then some i
        else if j
        then some i
        else if a
        then some i
        else if b
        then some i
        else x)
      ≡ (if a || b || c then some i else x)
chosen true b c n j i x h k = ground arith
chosen false true c n j i x h k = ground arith
chosen false false false n true i x h k = cc (k refl)
chosen false false false true false i x h k = refl
chosen false false false false false i x h k = refl
chosen false false true true j i x h k = cc (h refl refl)
chosen false false true false j i x h k = refl

json-field_name :
    (key : Str) (field : StructField)
    → (not (str_eq (json_name_of field) []) && str_eq (json_name_of field) key) ≡ true
    → str_eq (field_name_of field) key ≡ true
unfolding field_name_of
json-field_name key field h = elim (Bool-cases (str_eq (json_name_of field) [])) [
  | inl none_given ↦ cc (rw none_given at h)
  | inr given ↦ rw given (rw given at h)
]

index_of-add_field :
    (key : Str) (i : ℕ) (field : StructField) (m : Mappings)
    → field.is_exported ≡ true
    → index_of (lookup key (add_field i field m))
      ≡ (if answers key field then some i else index_of (lookup key m))
unfolding add_field answers
index_of-add_field key i field m exported =
    let json = json_name_of field in
    let name = field_name_of field in
    let proto = to_snake name in
    let camel = to_camel proto in
    let mapping : FieldMapping = record { field_index = i; json_name = json; proto_name = proto } in
    rw
      (
        index_of-insert_if key (not (str_eq camel name)) camel mapping (
            insert_if (not (str_eq json [])) json mapping
              (insert name mapping (insert proto mapping m))),
        index_of-insert_if key (not (str_eq json [])) json mapping
            (insert name mapping (insert proto mapping m)),
        index_of-insert key name mapping (insert proto mapping m),
        index_of-insert key proto mapping m,
        exported,
      )
      (chosen (str_eq name key) (str_eq proto key) (str_eq camel key) (str_eq camel name)
        (not (str_eq json []) && str_eq json key) i (index_of (lookup key m))
        (λ same found. cc ((str_eq_iff camel name).0 same, found)) (json-field_name key field))

or_else-last :
    (o : Option ℕ) (b : Bool) (i : ℕ) (x : Option ℕ)
    → or_else o (if b then some i else x) ≡ or_else (or_else o (if b then some i else none)) x
or_else-last none true i x = refl
or_else-last none false i x = refl
or_else-last (some j) b i x = refl

or_else-none : (o : Option ℕ) → or_else o none ≡ o
or_else-none none = refl
or_else-none (some i) = refl

hidden_answers :
    (key : Str) (field : StructField) → field.is_exported ≡ false → answers key field ≡ false
unfolding answers
hidden_answers key field hidden = rw hidden refl

index_of-add_fields :
    (key : Str) (i : ℕ) (fields : List StructField) (m : Mappings)
    → index_of (lookup key (add_fields i fields m))
      ≡ or_else (last_answering i key fields) (index_of (lookup key m))
unfolding add_fields last_answering
index_of-add_fields key i [] m = refl
index_of-add_fields key i (field ∷ more) m = elim (Bool-cases field.is_exported) [
  | inl exported ↦ simp (exported) (
      index_of-add_fields key (i + 1) more (add_field i field m)
      ∙ ap (or_else (last_answering (i + 1) key more)) (index_of-add_field key i field m exported)
      ∙ or_else-last (last_answering (i + 1) key more) (answers key field) i
          (index_of (lookup key m)))
  | inr hidden ↦ simp (hidden) (
      index_of-add_fields key (i + 1) more m
      ∙ ap (λ o. or_else o (index_of (lookup key m)))
          (sym (
            rw (hidden_answers key field hidden) (or_else-none (last_answering (i + 1) key more)))))
]

-- A name finds the last exported field that answers to it, by its own name or that of its json tag, in any of three
-- spellings, and finds nothing where no field does.
pub find_struct_field-last_answering :
    (fields : List StructField) (key : Str)
    → find_struct_field fields key ≡ last_answering 0 key fields
unfolding find_struct_field get_field_mappings index_of lookup
find_struct_field-last_answering fields key =
    index_of-add_fields key 0 fields [] ∙ or_else-none (last_answering 0 key fields)
