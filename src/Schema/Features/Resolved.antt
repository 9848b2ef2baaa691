-- ===== src/Schema/Features/Resolved.antt =====
-- What features a field has in the end.
use hyperway.Prelude.{
  ℕ, ◌≡◌, refl, sym, ap, ◌∙◌, ◌↔◌, Bool, true, false, ◌&&◌, Option, none, some, List, ==_iff,
  if◌then◌else◌,
}
use hyperway.Prelude.Str.{Str}
use hyperway.Schema.Features.{
  FeatureSet, FieldCharacteristics, presence, create_field_features, merge_features,
  extract_field_characteristics, compare_feature, features_equal, apply_field_tags, expanded,
}

-- what proto.Merge does to a field: it is overwritten where the second message has it
abbrev pub over : Option ℕ → Option ℕ → Option ℕ
over parent none = parent
over parent (some n) = some n

-- Every feature of the merged set.
pub record IsOver (parent child merged : FeatureSet) : Type 0 where
  pub field_presence : merged.field_presence ≡ over parent.field_presence child.field_presence
  pub enum_type : merged.enum_type ≡ over parent.enum_type child.enum_type
  pub repeated_field_encoding :
      merged.repeated_field_encoding
      ≡ over parent.repeated_field_encoding child.repeated_field_encoding
  pub utf8_validation : merged.utf8_validation ≡ over parent.utf8_validation child.utf8_validation
  pub message_encoding :
      merged.message_encoding ≡ over parent.message_encoding child.message_encoding
  pub json_format : merged.json_format ≡ over parent.json_format child.json_format

over_assoc : (a b c : Option ℕ) → over (over a b) c ≡ over a (over b c)
over_assoc a b none = refl
over_assoc a b (some n) = refl

compare_feature_iff : (a b : Option ℕ) → (compare_feature a b ≡ true) ↔ (a ≡ b)
unfolding compare_feature
compare_feature_iff none none = ((λ h. refl), (λ h. refl))
compare_feature_iff none (some b) = ((λ h. cc), (λ h. cc))
compare_feature_iff (some a) none = ((λ h. cc), (λ h. cc))
compare_feature_iff (some a) (some b) =
    ((λ h. ap (λ n. some n) ((==_iff a b).0 h)), (λ h. (==_iff a b).1 (cc h)))

compare_feature_refl : (a : Option ℕ) → compare_feature a a ≡ true
compare_feature_refl a = (compare_feature_iff a a).1 refl

both : (a b c d : Bool) → (a && b && c && d) ≡ true → (a ≡ true) × (c ≡ true)
both true b true d h = (refl, refl)
both true true false d h = cc
both true false false d h = cc
both false b c d h = cc

all_four : (a b c d : Bool) → a ≡ true → b ≡ true → c ≡ true → d ≡ true → (a && b && c && d) ≡ true
all_four a b c d ha hb hc hd = rw (ha, hb, hc, hd) refl

-- A field that `CreateFieldFeatures` makes from the parent's features compares as equal to them exactly when it is the same
-- set: the comparison, which looks at four of the six features, is exact where the builder uses it.
pub features_equal-create_field_features :
    (parent : FeatureSet) (c : FieldCharacteristics)
    → (features_equal (some parent) (create_field_features (some parent) c) ≡ true)
      ↔ (create_field_features (some parent) c ≡ some parent)
unfolding features_equal create_field_features
features_equal-create_field_features parent c =
    let p = presence c parent.field_presence in
    let e = if c.force_unpacked then some expanded else parent.repeated_field_encoding in
    let first = compare_feature parent.field_presence p in
    let second = compare_feature parent.enum_type parent.enum_type in
    let third = compare_feature parent.repeated_field_encoding e in
    let fourth = compare_feature parent.utf8_validation parent.utf8_validation in
    (
      (λ h.
          let (same_p, same_e) = both first second third fourth h in
          let eq_p = (compare_feature_iff parent.field_presence p).0 same_p in
          let eq_e = (compare_feature_iff parent.repeated_field_encoding e).0 same_e in
          λ k.
            some (record parent {
              field_presence = sym eq_p k;
              repeated_field_encoding = sym eq_e k;
            })),
      (λ h.
          let kept : record parent { field_presence = p; repeated_field_encoding = e } ≡ parent =
            cc h in
          all_four first second third fourth
            ((compare_feature_iff parent.field_presence p).1
              (sym (ap (λ f. f.field_presence) kept)))
            (compare_feature_refl parent.enum_type)
            ((compare_feature_iff parent.repeated_field_encoding e).1
              (sym (ap (λ f. f.repeated_field_encoding) kept)))
            (compare_feature_refl parent.utf8_validation)),
    )

-- the features that a set has, with those of the parent where it is nil
abbrev pub seen_by : Option FeatureSet → Option FeatureSet → Option FeatureSet
seen_by parent none = parent
seen_by parent (some features) = some features

set_on_field :
    (b : Bool) (made parent : FeatureSet)
    → (b ≡ true) ↔ (◌≡◌ {A = Option FeatureSet} (some made) (some parent))
    → let set : Option FeatureSet = if b then none else some made in
      (seen_by (some parent) set ≡ some made)
      × ((set ≡ none) ↔ (◌≡◌ {A = Option FeatureSet} (some made) (some parent)))
set_on_field true made parent iff = (sym (iff.0 refl), ((λ h. iff.0 refl), (λ h. refl)))
set_on_field false made parent iff = (refl, ((λ h. cc), (λ h. cc (iff.1 h))))

-- What the builder puts on a field is enough: a reader that takes the parent's features where the field has none sees
-- the features that `CreateFieldFeatures` has made, and a field that is given features differs from its parent.
pub apply_field_tags-seen_by :
    (parent : FeatureSet) (tags : List (Str × Str))
    → let made = create_field_features (some parent) (extract_field_characteristics tags) in
      let set = (apply_field_tags (some parent) tags).0 in
      (seen_by (some parent) set ≡ made) × ((set ≡ none) ↔ (made ≡ some parent))
unfolding apply_field_tags create_field_features
apply_field_tags-seen_by parent tags =
    let c = extract_field_characteristics tags in
    set_on_field (features_equal (some parent) (create_field_features (some parent) c))
      (record parent {
        field_presence = presence c parent.field_presence;
        repeated_field_encoding =
            if c.force_unpacked then some expanded else parent.repeated_field_encoding;
      })
      parent (features_equal-create_field_features parent c)

over_both :
    (a b c : Option ℕ) {ab bc x y : Option ℕ}
    → ab ≡ over a b
    → x ≡ over ab c
    → bc ≡ over b c
    → y ≡ over a bc
    → x ≡ y
over_both a b c p q r s = q ∙ ap (λ v. over v c) p ∙ over_assoc a b c ∙ ap (over a) (sym r) ∙ sym s

module _ (merge : FeatureSet → FeatureSet → FeatureSet)
    (law : (parent child : FeatureSet) → IsOver parent child (merge parent child)) where
  -- Merging is associative, nil included, if proto.Merge overwrites what the second message has and keeps the rest: it does not
  -- matter whether a file's features are merged with a message's first or a message's with a field's.
  pub merge_features_assoc :
      (a b c : Option FeatureSet)
      → merge_features merge (merge_features merge a b) c
        ≡ merge_features merge a (merge_features merge b c)
  unfolding merge_features
  merge_features_assoc none b c = refl
  merge_features_assoc (some a) none c = refl
  merge_features_assoc (some a) (some b) none = refl
  merge_features_assoc (some a) (some b) (some c) =
      let ab = law a b in
      let ab_c = law (merge a b) c in
      let bc = law b c in
      let a_bc = law a (merge b c) in
      λ k. some (record {
        field_presence =
            over_both a.field_presence b.field_presence c.field_presence ab.field_presence
              ab_c.field_presence bc.field_presence a_bc.field_presence k;
        enum_type =
            over_both a.enum_type b.enum_type c.enum_type ab.enum_type ab_c.enum_type bc.enum_type
              a_bc.enum_type k;
        repeated_field_encoding =
            over_both a.repeated_field_encoding b.repeated_field_encoding c.repeated_field_encoding
              ab.repeated_field_encoding ab_c.repeated_field_encoding bc.repeated_field_encoding
              a_bc.repeated_field_encoding k;
        utf8_validation =
            over_both a.utf8_validation b.utf8_validation c.utf8_validation ab.utf8_validation
              ab_c.utf8_validation bc.utf8_validation a_bc.utf8_validation k;
        message_encoding =
            over_both a.message_encoding b.message_encoding c.message_encoding ab.message_encoding
              ab_c.message_encoding bc.message_encoding a_bc.message_encoding k;
        json_format =
            over_both a.json_format b.json_format c.json_format ab.json_format ab_c.json_format
              bc.json_format a_bc.json_format k;
      })
