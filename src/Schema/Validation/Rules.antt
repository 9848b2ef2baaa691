-- ===== src/Schema/Validation/Rules.antt =====
-- A tag that is written from rules is read as these rules.
use hyperway.Prelude.{
  ◌≡◌, refl, sym, ap, ◌∙◌, false, Bool-cases, inl, inr, ℕ, none, List, [], ◌∷◌, ◌++◌, All,
  if◌then◌else◌, arith,
}
use hyperway.Prelude.Str.{Str, str, str_eq, split, cut, trim_space}
use hyperway.Prelude.Str.Split.{IsFree, split_from_free, split_from-sep, cut-sep}
use hyperway.Prelude.Str.Laws.{str_eq_iff}
use hyperway.Schema.Validation.{ValidationRule, rule_of, parse_parts, parse_validation_tag}

-- a rule as a tag has it: its name alone where it is on
unfoldable pub written : ValidationRule → Str
written rule = if str_eq rule.value (str "true") then rule.name else rule.name ++ b'=' ∷ rule.value

-- the rules of a tag, with commas between
abbrev pub tag_of : ValidationRule → List ValidationRule → Str
tag_of rule [] = written rule
tag_of rule (next ∷ more) = written rule ++ b',' ∷ tag_of next more

-- A rule that a tag can have: no comma in it, no equals sign in its name, and no white space around it.
pub record IsWritable (rule : ValidationRule) : Type 0 where
  pub no_comma : IsFree b',' (written rule)
  pub no_equals : IsFree b'=' rule.name
  pub named : str_eq (written rule) [] ≡ false
  pub no_space : trim_space (written rule) ≡ written rule

cut_free : (sep : ℕ) (s : Str) → IsFree sep s → cut sep s ≡ none
unfolding cut
cut_free sep [] h = refl
cut_free sep (c ∷ s) (hc, hs) = ground (arith, cut_free sep s hs)

rule_of-written :
    (rule : ValidationRule)
    → IsWritable rule
    → rule_of (written rule) (cut b'=' (written rule)) ≡ rule
unfolding rule_of written
rule_of-written rule w = elim (Bool-cases (str_eq rule.value (str "true"))) [
  | inl on ↦
      simp (on, cut_free b'=' rule.name w.no_equals)
        (λ i. record {
          name = rule.name;
          value = sym ((str_eq_iff rule.value (str "true")).0 on) i;
        })
  | inr valued ↦ simp (valued, cut-sep b'=' rule.name rule.value w.no_equals) refl
]

parse_parts-written :
    (rule : ValidationRule) (more : List Str)
    → IsWritable rule
    → parse_parts (written rule ∷ more) ≡ rule ∷ parse_parts more
unfolding parse_parts
parse_parts-written rule more w =
    rw (w.no_space, w.named) (ap (λ r. r ∷ parse_parts more) (rule_of-written rule w))

parse_parts-tag_of :
    (rule : ValidationRule) (more : List ValidationRule)
    → All IsWritable (rule ∷ more)
    → parse_parts (split b',' (tag_of rule more)) ≡ rule ∷ more
unfolding split parse_parts
parse_parts-tag_of rule [] (w, _) =
    ap parse_parts (split_from_free b',' [] (written rule) w.no_comma)
    ∙ parse_parts-written rule [] w
parse_parts-tag_of rule (next ∷ more) (w, ws) =
    ap parse_parts (split_from-sep b',' [] (written rule) (tag_of next more) w.no_comma)
    ∙ parse_parts-written rule (split b',' (tag_of next more)) w
    ∙ ap (λ rs. rule ∷ rs) (parse_parts-tag_of next more ws)

text_nonempty : (s : Str) (c : ℕ) (t : Str) → str_eq (s ++ c ∷ t) [] ≡ false
unfolding str_eq
text_nonempty [] c t = refl
text_nonempty (d ∷ s) c t = refl

tag_nonempty :
    (rule : ValidationRule) (more : List ValidationRule)
    → IsWritable rule
    → str_eq (tag_of rule more) [] ≡ false
tag_nonempty rule [] w = w.named
tag_nonempty rule (next ∷ more) w = text_nonempty (written rule) b',' (tag_of next more)

-- A tag that is written from rules, by a comma between them, is read as these rules in their order, if each of them is
-- writable.
pub parse_validation_tag-tag_of :
    (rule : ValidationRule) (more : List ValidationRule)
    → All IsWritable (rule ∷ more)
    → parse_validation_tag (tag_of rule more) ≡ rule ∷ more
unfolding parse_validation_tag
parse_validation_tag-tag_of rule more (w, ws) =
    simp (tag_nonempty rule more w) (parse_parts-tag_of rule more (w, ws))
