-- ===== src/Schema/Oneof.antt =====
-- schema/oneof.go and schema/oneof_validation.go: which fields of a struct are oneofs, and the check that one field of each
-- is set at most. A struct is a list of its fields, with no embedded ones, as reflection shows them.
pub mod Checked
use hyperway.Prelude.{
  ℕ, ◌+◌, zero, suc, ◌≡◌, Bool, true, false, not, ◌&&◌, Option, none, some, List, [], ◌∷◌, ◌++◌,
  ltb, length, if◌then◌else◌,
}
use hyperway.Prelude.Str.{Str, str, str_eq, upper_byte, to_lower}

-- what `isFieldSet` looks at, by the kind of the value
pub data FieldValue : Type 0 where
  -- a pointer or an interface, nil or not
  reference : Bool → FieldValue
  -- a slice or a map: whether it is nil, and its length
  sequence : Bool → ℕ → FieldValue
  text : Str → FieldValue
  -- another kind: whether it is the zero value
  plain : Bool → FieldValue

pub record SubField : Type 0 where
  pub name : Str
  pub is_exported : Bool
  pub value : FieldValue

pub data Content : Type 0 where
  struct : List SubField → Content
  -- a pointer to a struct, nil or not
  pointer : Bool → List SubField → Content
  -- a pointer to something else, nil or not
  other_pointer : Bool → Content
  other : Content

pub record Field : Type 0 where
  pub name : Str
  pub is_exported : Bool
  -- the tag hyperway
  pub tag : Str
  pub content : Content

pub record OneofGroup : Type 0 where
  pub name : Str
  pub fields : List (Str × ℕ)

unfoldable pub is_field_set : FieldValue → Bool
is_field_set (reference is_nil) = not is_nil
is_field_set (sequence is_nil n) = not is_nil && ltb 0 n
is_field_set (text s) = not (str_eq s [])
is_field_set (plain is_zero) = not is_zero

-- the exported fields with their indices, from one on
unfoldable pub indexed : ℕ → List SubField → List (Str × ℕ)
indexed j [] = []
indexed j (sub ∷ more) =
    let rest = indexed (suc j) more in if sub.is_exported then (sub.name, j) ∷ rest else rest

-- a group, if there are two fields or more
unfoldable pub grouped : Str → List (Str × ℕ) → List OneofGroup
grouped name fields =
    if ltb (length fields) 2 then [] else record { name = to_lower name; fields = fields } ∷ []

unfoldable pub group_of : Str → Content → List OneofGroup
unfolding grouped indexed
group_of name (struct subs) = grouped name (indexed 0 subs)
group_of name (pointer is_nil subs) = grouped name (indexed 0 subs)
group_of name (other_pointer is_nil) = []
group_of name other = []

unfoldable pub groups_of : Field → List OneofGroup
unfolding group_of
groups_of field =
    if field.is_exported && str_eq field.tag (str "oneof")
    then group_of field.name field.content
    else []

unfoldable pub detect_oneof_groups : List Field → List OneofGroup
unfolding groups_of
detect_oneof_groups [] = []
detect_oneof_groups (field ∷ more) = groups_of field ++ detect_oneof_groups more

-- strings.Title of a name, which is one word
unfoldable pub title : Str → Str
title [] = []
title (c ∷ s) = upper_byte c ∷ s

unfoldable pub field_by_name : Str → List Field → Option Field
field_by_name name [] = none
field_by_name name (field ∷ more) =
    if str_eq field.name name then some field else field_by_name name more

unfoldable pub nth : ℕ → List SubField → Option SubField
nth n [] = none
nth zero (sub ∷ more) = some sub
nth (suc n) (sub ∷ more) = nth n more

-- the names of the fields that are set, `none` where an index is out of range
unfoldable pub set_field : Str → Option SubField → Option (List Str) → Option (List Str)
unfolding is_field_set
set_field name none names = none
set_field name (some sub) none = none
set_field name (some sub) (some names) =
    some (if is_field_set sub.value then name ∷ names else names)

unfoldable pub set_fields : List SubField → List (Str × ℕ) → Option (List Str)
unfolding set_field nth
set_fields subs [] = some []
set_fields subs ((name, j) ∷ more) = set_field name (nth j subs) (set_fields subs more)

-- no error, the error of a group with its fields that are set, or a panic
pub data Verdict : Type 0 where
  accepted : Verdict
  violated : Str → List Str → Verdict
  panicked : Verdict

unfoldable pub judged : Str → Option (List Str) → Verdict
judged name none = panicked
judged name (some names) = if ltb 1 (length names) then violated name names else accepted

unfoldable pub validate_content : OneofGroup → Content → Verdict
unfolding judged set_fields
validate_content group (struct subs) = judged group.name (set_fields subs group.fields)
validate_content group (pointer true subs) = accepted
validate_content group (pointer false subs) = judged group.name (set_fields subs group.fields)
validate_content group (other_pointer true) = accepted
validate_content group (other_pointer false) = panicked
validate_content group other = panicked

unfoldable pub validate_found : OneofGroup → Option Field → Verdict
unfolding validate_content
validate_found group none = accepted
validate_found group (some field) = validate_content group field.content

unfoldable pub validate_oneof_group : List Field → OneofGroup → Verdict
unfolding validate_found title field_by_name
validate_oneof_group fields group = validate_found group (field_by_name (title group.name) fields)

unfoldable pub and_then : Verdict → Verdict → Verdict
and_then accepted next = next
and_then (violated name names) next = violated name names
and_then panicked next = panicked

unfoldable pub validate_groups : List Field → List OneofGroup → Verdict
unfolding validate_oneof_group and_then
validate_groups fields [] = accepted
validate_groups fields (group ∷ more) =
    and_then (validate_oneof_group fields group) (validate_groups fields more)

-- `ValidateOneof` of a struct
unfoldable pub validate_oneof : List Field → Verdict
unfolding validate_groups detect_oneof_groups
validate_oneof fields = validate_groups fields (detect_oneof_groups fields)
