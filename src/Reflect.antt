-- ===== src/Reflect.antt =====
-- internal/reflect/convert.go: how the names of a struct's fields and of a message's are matched. Names are ASCII.
pub mod Names
pub mod Memo
pub mod Keys
pub mod Numbers
use hyperway.Prelude.{
  ℕ, ◌+◌, ◌≡◌, Bool, true, false, not, ◌&&◌, Option, none, some, List, [], ◌∷◌, ◌++◌, map, leb,
  if◌then◌else◌,
}
use hyperway.Prelude.Str.{Str, str, str_eq, upper_byte, to_lower, split, lookup, insert}

abbrev pub is_upper : ℕ → Bool
is_upper c = leb b'A' c && leb c b'Z'

-- the loop of `camelToSnake`, at the start of the name or after it
unfoldable pub underscored : Bool → Str → Str
underscored first [] = []
underscored first (c ∷ s) =
    let rest = underscored false s in if not first && is_upper c then b'_' ∷ c ∷ rest else c ∷ rest

-- what `camelToSnake` computes
unfoldable pub to_snake : Str → Str
unfolding underscored
to_snake s = to_lower (underscored true s)

unfoldable pub capital : Str → Str
capital [] = []
capital (c ∷ s) = upper_byte c ∷ s

unfoldable pub joined : List Str → Str
joined [] = []
joined (s ∷ more) = s ++ joined more

-- what `snakeToCamel` computes
unfoldable pub to_camel : Str → Str
unfolding capital joined
to_camel s = joined (map capital (split b'_' s))

-- `fieldNameCache`
abbrev pub NameCache : Type 0
NameCache = List (Str × Str)

unfoldable pub cached_or : Str → Str → NameCache → Option Str → Str × NameCache
cached_or key computed cache (some name) = (name, cache)
cached_or key computed cache none = (computed, insert key computed cache)

unfoldable pub camel_to_snake : Str → NameCache → Str × NameCache
unfolding cached_or
camel_to_snake s cache =
    let key = str "c2s:" ++ s in cached_or key (to_snake s) cache (lookup key cache)

unfoldable pub snake_to_camel : Str → NameCache → Str × NameCache
unfolding cached_or
snake_to_camel s cache =
    let key = str "s2c:" ++ s in cached_or key (to_camel s) cache (lookup key cache)

-- a field of a Go struct
pub record StructField : Type 0 where
  pub name : Str
  pub is_exported : Bool
  -- the tag json, empty where there is none
  pub json_tag : Str

pub record FieldMapping : Type 0 where
  pub field_index : ℕ
  pub json_name : Str
  pub proto_name : Str

abbrev pub Mappings : Type 0
Mappings = List (Str × FieldMapping)

unfoldable pub first_part : List Str → Str
first_part [] = []
first_part (s ∷ more) = s

-- the name of the tag, empty where it gives none
unfoldable pub json_name_of : StructField → Str
unfolding first_part
json_name_of field =
    let part = first_part (split b',' field.json_tag) in
    if str_eq field.json_tag [] then [] else if str_eq part (str "-") then [] else part

unfoldable pub field_name_of : StructField → Str
unfolding json_name_of
field_name_of field = if str_eq (json_name_of field) [] then field.name else json_name_of field

abbrev pub insert_if : Bool → Str → FieldMapping → Mappings → Mappings
insert_if b k mapping m = if b then insert k mapping m else m

-- one round of the loop of `getFieldMappings`, whose names are converted without the cache
unfoldable pub add_field : ℕ → StructField → Mappings → Mappings
unfolding json_name_of field_name_of
add_field i field mappings =
    let json = json_name_of field in
    let name = field_name_of field in
    let proto = to_snake name in
    let mapping : FieldMapping = record { field_index = i; json_name = json; proto_name = proto } in
    let camel = to_camel proto in
    insert_if (not (str_eq camel name)) camel mapping (
      insert_if (not (str_eq json [])) json mapping
        (insert name mapping (insert proto mapping mappings)))

unfoldable pub add_fields : ℕ → List StructField → Mappings → Mappings
unfolding add_field
add_fields i [] mappings = mappings
add_fields i (field ∷ more) mappings =
    let with_field = add_fields (i + 1) more (add_field i field mappings) in
    let without = add_fields (i + 1) more mappings in
    if field.is_exported then with_field else without

unfoldable pub get_field_mappings : List StructField → Mappings
unfolding add_fields
get_field_mappings fields = add_fields 0 fields []

unfoldable pub index_of : Option FieldMapping → Option ℕ
index_of none = none
index_of (some mapping) = some mapping.field_index

-- `findStructField`: the index of the field
unfoldable pub find_struct_field : List StructField → Str → Option ℕ
unfolding get_field_mappings index_of
find_struct_field fields name = index_of (lookup name (get_field_mappings fields))
