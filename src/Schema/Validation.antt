-- ===== src/Schema/Validation.antt =====
-- schema/validation.go: the tags that say what is valid, as rules, and as rules of a schema.
pub mod Rules
use hyperway.Prelude.{
  ◌≡◌, Bool, true, false, ◌&&◌, ◌||◌, Option, none, some, List, [], ◌∷◌, ◌++◌, if◌then◌else◌,
}
use hyperway.Prelude.Int.{ℤ}
use hyperway.Prelude.Str.{Str, str, str_eq, split, cut, trim_space, lookup, insert}
use hyperway.Prelude.Str.Numbers.{atoi}

pub record ValidationRule : Type 0 where
  pub name : Str
  pub value : Str

-- a part with a value, or a rule that is on
unfoldable pub rule_of : Str → Option (Str × Str) → ValidationRule
rule_of part (some (name, value)) = record { name = name; value = value }
rule_of part none = record { name = part; value = str "true" }

unfoldable pub parse_parts : List Str → List ValidationRule
unfolding rule_of
parse_parts [] = []
parse_parts (part ∷ more) =
    let rest = parse_parts more in
    let trimmed = trim_space part in
    if str_eq trimmed [] then rest else rule_of trimmed (cut b'=' trimmed) ∷ rest

unfoldable pub parse_validation_tag : Str → List ValidationRule
unfolding parse_parts
parse_validation_tag tag = if str_eq tag [] then [] else parse_parts (split b',' tag)

unfoldable pub comment_part : ValidationRule → Str
comment_part rule =
    if str_eq rule.value (str "true")
    then str "@" ++ rule.name
    else str "@" ++ rule.name ++ str "(" ++ rule.value ++ str ")"

-- strings.Join of the parts by a space
unfoldable pub comment_parts : List ValidationRule → Str
unfolding comment_part
comment_parts [] = []
comment_parts (rule ∷ []) = comment_part rule
comment_parts (rule ∷ next ∷ more) = comment_part rule ++ str " " ++ comment_parts (next ∷ more)

unfoldable pub build_validation_comment : List ValidationRule → Str
unfolding comment_parts
build_validation_comment [] = []
build_validation_comment (rule ∷ more) = str "Validation: " ++ comment_parts (rule ∷ more)

abbrev pub validation_patterns : List (Str × Str)
validation_patterns =
    (str "email", str "^[a-zA-Z0-9._%+-]+@[a-zA-Z0-9.-]+\\.[a-zA-Z]{2,}$")
    ∷ (str "alphanum", str "^[a-zA-Z0-9]+$")
    ∷ (str "alpha", str "^[a-zA-Z]+$")
    ∷ (str "numeric", str "^[0-9]+$")
    ∷ []

abbrev pub validation_formats : List (Str × Str)
validation_formats = (str "url", str "uri") ∷ (str "uuid", str "uuid") ∷ []

-- what the rules of a schema have as values; `F` are the numbers of float64
pub data RuleValue (F : Type 0) : Type 0 where
  flag : Bool → RuleValue F
  number : F → RuleValue F
  int : ℤ → RuleValue F
  text : Str → RuleValue F

module _ {F : Type 0} where
  unfoldable pub set_number : Str → Option F → List (Str × RuleValue F) → List (Str × RuleValue F)
  set_number key none result = result
  set_number key (some v) result = insert key (number v) result

  unfoldable pub set_length : Option ℤ → List (Str × RuleValue F) → List (Str × RuleValue F)
  set_length none result = result
  set_length (some v) result =
      insert (str "maxLength") (int v) (insert (str "minLength") (int v) result)

  unfoldable pub set_text :
      Option Str → Option Str → List (Str × RuleValue F) → List (Str × RuleValue F)
  set_text (some pattern) format result = insert (str "pattern") (text pattern) result
  set_text none (some format) result = insert (str "format") (text format) result
  set_text none none result = result

  -- `parse_float` is strconv.ParseFloat, `none` if it fails
  unfoldable pub apply_validation_rule :
      (Str → Option F) → List (Str × RuleValue F) → ValidationRule → List (Str × RuleValue F)
  unfolding set_number set_length set_text
  apply_validation_rule parse_float result rule =
      if str_eq rule.name (str "required")
      then insert (str "required") (flag true) result
      else if str_eq rule.name (str "min") || str_eq rule.name (str "gte")
      then set_number (str "minimum") (parse_float rule.value) result
      else if str_eq rule.name (str "max") || str_eq rule.name (str "lte")
      then set_number (str "maximum") (parse_float rule.value) result
      else if str_eq rule.name (str "len")
      then set_length (atoi rule.value) result
      else set_text (lookup rule.name validation_patterns) (lookup rule.name validation_formats)
          result

  unfoldable pub apply_rules :
      (Str → Option F) → List (Str × RuleValue F) → List ValidationRule → List (Str × RuleValue F)
  unfolding apply_validation_rule
  apply_rules parse_float result [] = result
  apply_rules parse_float result (rule ∷ more) =
      apply_rules parse_float (apply_validation_rule parse_float result rule) more

  unfoldable pub convert_to_protobuf_validation : (Str → Option F) → Str → List (Str × RuleValue F)
  unfolding apply_rules
  convert_to_protobuf_validation parse_float tag =
      apply_rules parse_float [] (parse_validation_tag tag)
