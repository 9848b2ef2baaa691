-- ===== src/Schema/Features.antt =====
-- schema/editions.go, schema/editions_features.go and schema/features_compare.go: the features of protobuf editions.
-- A feature of descriptor.proto is a number, and nil where it is not set; proto.Merge is a parameter.
pub mod Resolved
use hyperway.Prelude.{
  ℕ, ◌≡◌, Bool, true, false, not, ◌&&◌, ◌||◌, Option, none, some, List, ◌==◌, if◌then◌else◌,
}
use hyperway.Prelude.Str.{Str, str, str_eq, lookup}

pub data SyntaxMode : Type 0 where
  syntax_proto3 syntax_editions : SyntaxMode

pub data FieldPresence : Type 0 where
  presence_unknown presence_explicit presence_implicit presence_legacy_required : FieldPresence

pub data RepeatedFieldEncoding : Type 0 where
  encoding_unknown encoding_packed encoding_expanded : RepeatedFieldEncoding

pub data EnumType : Type 0 where
  enum_unknown enum_open enum_closed : EnumType

pub data Utf8Validation : Type 0 where
  utf8_unknown utf8_verify utf8_none : Utf8Validation

-- the type `FeatureSet` of the package schema
pub record SchemaFeatures : Type 0 where
  pub field_presence : FieldPresence
  pub repeated_field_encoding : RepeatedFieldEncoding
  pub enum_type : EnumType
  pub utf8_validation : Utf8Validation

unfoldable pub default_proto3_features : SchemaFeatures
default_proto3_features = record {
  field_presence = presence_implicit;
  repeated_field_encoding = encoding_packed;
  enum_type = enum_open;
  utf8_validation = utf8_verify;
}

unfoldable pub default_edition2023_features : SchemaFeatures
default_edition2023_features = record {
  field_presence = presence_explicit;
  repeated_field_encoding = encoding_packed;
  enum_type = enum_open;
  utf8_validation = utf8_verify;
}

-- `Clone`: nil is `none`
unfoldable pub clone : Option SchemaFeatures → Option SchemaFeatures
clone none = none
clone (some fs) = some (record {
  field_presence = fs.field_presence;
  repeated_field_encoding = fs.repeated_field_encoding;
  enum_type = fs.enum_type;
  utf8_validation = fs.utf8_validation;
})

pub data Edition : Type 0 where
  edition_2023 edition_2024 : Edition

unfoldable pub string_to_edition : Str → Edition
string_to_edition edition =
    if str_eq edition (str "2023") || str_eq edition (str "EDITION_2023")
    then edition_2023
    else if str_eq edition (str "2024") || str_eq edition (str "EDITION_2024")
    then edition_2024
    else edition_2023

-- descriptorpb.FeatureSet
pub record FeatureSet : Type 0 where
  pub field_presence : Option ℕ
  pub enum_type : Option ℕ
  pub repeated_field_encoding : Option ℕ
  pub utf8_validation : Option ℕ
  pub message_encoding : Option ℕ
  pub json_format : Option ℕ

-- the numbers of descriptor.proto
abbrev pub explicit : ℕ
explicit = 1

abbrev pub implicit : ℕ
implicit = 2

abbrev pub legacy_required : ℕ
legacy_required = 3

abbrev pub expanded : ℕ
expanded = 2

-- open, packed, verified, length-prefixed, JSON allowed: whatever the edition
unfoldable pub create_file_features : Str → FeatureSet
create_file_features edition = record {
  field_presence = some explicit;
  enum_type = some 1;
  repeated_field_encoding = some 1;
  utf8_validation = some 2;
  message_encoding = some 1;
  json_format = some 1;
}

pub record FieldCharacteristics : Type 0 where
  pub is_required : Bool
  pub force_implicit_presence : Bool
  pub force_explicit_presence : Bool
  pub force_unpacked : Bool
  pub default_value : Str

-- the presence of a field, given the parent's
unfoldable pub presence : FieldCharacteristics → Option ℕ → Option ℕ
presence c parent =
    if c.force_implicit_presence
    then some implicit
    else if c.force_explicit_presence
    then some explicit
    else if c.is_required
    then some legacy_required
    else parent

unfoldable pub create_field_features : Option FeatureSet → FieldCharacteristics → Option FeatureSet
unfolding presence
create_field_features none c = none
create_field_features (some parent) c = some (record parent {
  field_presence = presence c parent.field_presence;
  repeated_field_encoding =
      if c.force_unpacked then some expanded else parent.repeated_field_encoding;
})

-- GetFieldPresence(): the unknown presence, 0, where nothing is set
presence_or_default : Option ℕ → ℕ
presence_or_default none = 0
presence_or_default (some n) = n

unfoldable pub should_use_proto3_optional : SyntaxMode → Option FeatureSet → Bool → Bool
unfolding presence_or_default
should_use_proto3_optional syntax_editions features is_pointer = false
should_use_proto3_optional syntax_proto3 none is_pointer = false
should_use_proto3_optional syntax_proto3 (some features) is_pointer =
    is_pointer && not (presence_or_default features.field_presence == implicit)

-- `merge` is proto.Merge: the first argument after it has taken in the second
unfoldable pub merge_features :
    (FeatureSet → FeatureSet → FeatureSet)
    → Option FeatureSet
    → Option FeatureSet
    → Option FeatureSet
merge_features merge none child = child
merge_features merge (some parent) none = some parent
merge_features merge (some parent) (some child) = some (merge parent child)

or_empty : Option Str → Str
or_empty none = str ""
or_empty (some v) = v

unfoldable pub extract_field_characteristics : List (Str × Str) → FieldCharacteristics
unfolding or_empty
extract_field_characteristics tags =
    let tag = or_empty (lookup (str "proto") tags) in
    record {
      is_required = str_eq tag (str "required");
      force_implicit_presence = str_eq tag (str "implicit");
      force_explicit_presence = str_eq tag (str "explicit");
      force_unpacked = str_eq tag (str "unpacked");
      default_value = or_empty (lookup (str "default") tags);
    }

-- `compareFieldPresence`, `compareEnumType`, `compareRepeatedFieldEncoding` and `compareUTF8Validation`
unfoldable pub compare_feature : Option ℕ → Option ℕ → Bool
compare_feature none none = true
compare_feature (some a) (some b) = a == b
compare_feature _ _ = false

unfoldable pub features_equal : Option FeatureSet → Option FeatureSet → Bool
unfolding compare_feature
features_equal none none = true
features_equal (some a) (some b) =
    compare_feature a.field_presence b.field_presence
    && compare_feature a.enum_type b.enum_type
    && compare_feature a.repeated_field_encoding b.repeated_field_encoding
    && compare_feature a.utf8_validation b.utf8_validation
features_equal _ _ = false

-- What `applyFieldTags` of schema/builder.go sets on a field in the mode of editions: the features, where they differ from
-- the parent's, and the default value.
unfoldable pub apply_field_tags :
    Option FeatureSet → List (Str × Str) → Option FeatureSet × Option Str
unfolding create_field_features extract_field_characteristics features_equal
apply_field_tags parent tags =
    let chars = extract_field_characteristics tags in
    let features = create_field_features parent chars in
    (
      if features_equal parent features then none else features,
      if str_eq chars.default_value (str "") then none else some chars.default_value,
    )
