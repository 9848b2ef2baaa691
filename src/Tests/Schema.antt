-- ===== src/Tests/Schema.antt =====
-- Tags with two rules and with a comment, and a oneof with two fields that are set.
use hyperway.Prelude.{◌≡◌, ◌⊎◌, refl, true, false, List, [], ◌∷◌, arith}
use hyperway.Prelude.Str.{Str, str, str_eq, trim_space, to_lower}
use hyperway.Schema.Validation.{ValidationRule, parse_validation_tag}
use hyperway.Schema.Validation.Rules.{written, tag_of, IsWritable, parse_validation_tag-tag_of}
use hyperway.Schema.Comments.{extract_comment_from_tag, extract_proto_doc}
use hyperway.Schema.Oneof.{Field, struct, text, reference, title, field_by_name, validate_oneof}
use hyperway.Schema.Oneof.Checked.{first_violation, validate_oneof-first_violation}
use hyperway.Schema.Comments.Tags.{IsFoundIn, extract_comment_from_tag-IsFoundIn}

abbrev required : ValidationRule
required = record { name = str "required"; value = str "true" }

abbrev min3 : ValidationRule
min3 = record { name = str "min"; value = str "3" }

required-IsWritable : IsWritable required
unfolding written str_eq trim_space
required-IsWritable = record {
  no_comma = (
    omega arith,
    (
      omega arith,
      (omega arith, (omega arith, (omega arith, (omega arith, (omega arith, (omega arith, tt)))))),
    ),
  );
  no_equals = (
    omega arith,
    (
      omega arith,
      (omega arith, (omega arith, (omega arith, (omega arith, (omega arith, (omega arith, tt)))))),
    ),
  );
  named = refl;
  no_space = refl;
}

min3-IsWritable : IsWritable min3
unfolding written str_eq trim_space
min3-IsWritable = record {
  no_comma = (omega arith, (omega arith, (omega arith, (omega arith, (omega arith, tt)))));
  no_equals = (omega arith, (omega arith, (omega arith, tt)));
  named = refl;
  no_space = refl;
}

parse_validation_tag-tag_of_example :
    parse_validation_tag (tag_of required (min3 ∷ [])) ≡ required ∷ min3 ∷ []
parse_validation_tag-tag_of_example =
    parse_validation_tag-tag_of required (min3 ∷ []) (required-IsWritable, (min3-IsWritable, tt))

abbrev tag : Str
tag = str "json:\"id\" doc:\"the id\""

extract_comment_from_tag-IsFoundIn_example :
    let doc = extract_comment_from_tag tag in
    let proto_doc = extract_proto_doc tag in
    ((doc ≡ []) ⊎ IsFoundIn (str "doc:\"") doc tag)
    × ((proto_doc ≡ []) ⊎ IsFoundIn (str "protoDoc:\"") proto_doc tag)
extract_comment_from_tag-IsFoundIn_example = extract_comment_from_tag-IsFoundIn tag

abbrev one_of_two : List Field
one_of_two =
    record {
      name = str "Method";
      is_exported = true;
      tag = str "oneof";
      content = struct (
          record { name = str "Card"; is_exported = true; value = text (str "4") }
          ∷ record { name = str "Cash"; is_exported = true; value = reference false }
          ∷ []);
    }
    ∷ []

validate_oneof-first_violation_example : validate_oneof one_of_two ≡ first_violation one_of_two
unfolding field_by_name title str_eq to_lower
validate_oneof-first_violation_example =
    validate_oneof-first_violation one_of_two ((refl, refl), tt)
