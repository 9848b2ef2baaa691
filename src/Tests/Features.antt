-- ===== src/Tests/Features.antt =====
-- A file's features, and a field that is unpacked.
use hyperway.Prelude.{◌≡◌, ◌↔◌, none, some, List, [], ◌∷◌}
use hyperway.Prelude.Str.{Str, str}
use hyperway.Schema.Features.{
  FeatureSet, create_file_features, create_field_features, extract_field_characteristics,
  apply_field_tags,
}
use hyperway.Schema.Features.Resolved.{seen_by, apply_field_tags-seen_by}

abbrev file : FeatureSet
file = create_file_features (str "2023")

abbrev tags : List (Str × Str)
tags = (str "proto", str "unpacked") ∷ (str "default", str "[]") ∷ []

apply_field_tags-seen_by_example :
    let made = create_field_features (some file) (extract_field_characteristics tags) in
    let set = (apply_field_tags (some file) tags).0 in
    (seen_by (some file) set ≡ made) × ((set ≡ none) ↔ (made ≡ some file))
apply_field_tags-seen_by_example = apply_field_tags-seen_by file tags
