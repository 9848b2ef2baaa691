-- ===== src/Schema/Comments/Tags.antt =====
-- What is taken from a struct tag.
use hyperway.Prelude.{
  ℕ, ◌≡◌, ◌≢◌, refl, sym, ap, ◌∙◌, true, Bool-cases, Option, Option-cases, ◌⊎◌, inl, inr, none,
  some, [], ◌∷◌, ◌++◌, ◌==◌, ==_iff, drop, length, arith,
}
use mathlib.Core.Path.{subst}
use hyperway.Prelude.Str.{Str, str, str_eq, has_prefix}
use hyperway.Schema.Comments.{
  after_first, prepended, quoted, or_empty, quoted_after, extract, extract_comment_from_tag,
  extract_proto_doc,
}

has_prefix-drop : (p s : Str) → has_prefix p s ≡ true → s ≡ p ++ drop (length p) s
unfolding has_prefix
has_prefix-drop [] s h = refl
has_prefix-drop (x ∷ p) [] h = cc h
has_prefix-drop (x ∷ p) (y ∷ s) h = ground (arith, has_prefix-drop p s)

after_first-stands :
    (p s t : Str) → after_first p s ≡ some t → (before : Str) × (s ≡ before ++ (p ++ t))
unfolding after_first
after_first-stands p [] t h = elim (Bool-cases (has_prefix p [])) [
  | inl here ↦ ([], has_prefix-drop p [] here ∙ ap (λ u. p ++ u) (cc (rw here at h)))
  | inr away ↦ cc (rw away at h)
]
after_first-stands p (c ∷ s) t h = elim (Bool-cases (has_prefix p (c ∷ s))) [
  | inl here ↦ ([], has_prefix-drop p (c ∷ s) here ∙ ap (λ u. p ++ u) (cc (rw here at h)))
  | inr away ↦
      let (before, e) = after_first-stands p s t (rw away at h) in (c ∷ before, ap (λ u. c ∷ u) e)
]

prepended-some :
    (s : Str) (o : Option Str) (t : Str)
    → prepended s o ≡ some t
    → (u : Str) × (o ≡ some u) × (t ≡ s ++ u)
unfolding prepended
prepended-some s none t h = cc h
prepended-some s (some u) t h = (u, refl, sym (cc h))

-- A text up to a quote: no quote in it but behind a backslash.
pub data IsEscaped : Str → Type 0 where
  empty : IsEscaped []
  escape : (d : ℕ) (s : Str) → IsEscaped s → IsEscaped (b'\\' ∷ d ∷ s)
  plain : (c : ℕ) (s : Str) → c ≢ b'\\' → c ≢ b'"' → IsEscaped s → IsEscaped (c ∷ s)

quoted-end : (rest : Str) → quoted (b'"' ∷ rest) ≡ some []
unfolding quoted
quoted-end [] = refl
quoted-end (d ∷ rest) = refl

quoted-escape : (d : ℕ) (s : Str) → quoted (b'\\' ∷ d ∷ s) ≡ prepended (b'\\' ∷ d ∷ []) (quoted s)
unfolding quoted
quoted-escape d s = refl

quoted-plain :
    (c d : ℕ) (s : Str)
    → c ≢ b'\\'
    → c ≢ b'"'
    → quoted (c ∷ d ∷ s) ≡ prepended (c ∷ []) (quoted (d ∷ s))
unfolding quoted
quoted-plain c d s no_escape no_quote = ground arith

quoted-plain_append :
    (c : ℕ) (s rest : Str)
    → c ≢ b'\\'
    → c ≢ b'"'
    → quoted (c ∷ (s ++ b'"' ∷ rest)) ≡ prepended (c ∷ []) (quoted (s ++ b'"' ∷ rest))
quoted-plain_append c [] rest h k = quoted-plain c b'"' rest h k
quoted-plain_append c (d ∷ s) rest h k = quoted-plain c d (s ++ b'"' ∷ rest) h k

-- what is read from an escaped text and a quote
quoted-append : (s rest : Str) → IsEscaped s → quoted (s ++ b'"' ∷ rest) ≡ some s
unfolding prepended
quoted-append _ rest empty = quoted-end rest
quoted-append _ rest (escape d s h) =
    quoted-escape d (s ++ b'"' ∷ rest) ∙ ap (prepended (b'\\' ∷ d ∷ [])) (quoted-append s rest h)
quoted-append _ rest (plain c s no_escape no_quote h) =
    quoted-plain_append c s rest no_escape no_quote
    ∙ ap (prepended (c ∷ [])) (quoted-append s rest h)

-- an escaped text at the front, and a quote behind it
abbrev pub StandsIn : Str → Str → Type 0
StandsIn t s = IsEscaped t × ((rest : Str) × (s ≡ t ++ b'"' ∷ rest))

abbrev Reads : Str → Type 0
Reads s = (t : Str) → quoted s ≡ some t → StandsIn t s

escape-Reads : (d : ℕ) (s : Str) → Reads s → Reads (b'\\' ∷ d ∷ s)
escape-Reads d s reads t h =
    let (u, found, same) =
      prepended-some (b'\\' ∷ d ∷ []) (quoted s) t (sym (quoted-escape d s) ∙ h) in
    let (escaped, (rest, e)) = reads u found in
    rw same (escape d u escaped, (rest, ap (λ v. b'\\' ∷ d ∷ v) e))

plain-Reads : (c d : ℕ) (s : Str) → c ≢ b'\\' → c ≢ b'"' → Reads (d ∷ s) → Reads (c ∷ d ∷ s)
plain-Reads c d s no_escape no_quote reads t h =
    let (u, found, same) =
      prepended-some (c ∷ []) (quoted (d ∷ s)) t
        (sym (quoted-plain c d s no_escape no_quote) ∙ h) in
    let (escaped, (rest, e)) = reads u found in
    rw same (plain c u no_escape no_quote escaped, (rest, ap (λ v. c ∷ v) e))

end-Reads : (s : Str) → Reads (b'"' ∷ s)
end-Reads s t h = let same : [] ≡ t = cc (quoted-end s, h) in rw⁻¹ same (empty, (s, refl))

byte_cases : (c : ℕ) → (c ≡ b'\\') ⊎ (c ≡ b'"') ⊎ ((c ≢ b'\\') × (c ≢ b'"'))
byte_cases c = elim (Bool-cases (c == b'\\')) [
  | inl same ↦ inl ((==_iff c b'\\').0 same)
  | inr differs ↦ elim (Bool-cases (c == b'"')) [
    | inl same ↦ inr (inl ((==_iff c b'"').0 same))
    | inr differs' ↦
        inr (
          inr
            ((λ e. cc ((==_iff c b'\\').1 e, differs)), (λ e. cc ((==_iff c b'"').1 e, differs'))))
  ]
]

quoted-StandsIn : (s t : Str) → quoted s ≡ some t → StandsIn t s
unfolding quoted
quoted-StandsIn [] t h = cc h
quoted-StandsIn (c ∷ []) t h = elim (Bool-cases (c == b'"')) [
  | inl same ↦ subst (λ x. Reads (x ∷ [])) (sym ((==_iff c b'"').0 same)) (end-Reads []) t h
  | inr differs ↦ cc (rw differs at h)
]
quoted-StandsIn (c ∷ d ∷ s) t h = elim (byte_cases c) [
  | inl same ↦ subst (λ x. Reads (x ∷ d ∷ s)) (sym same) (escape-Reads d s (quoted-StandsIn s)) t h
  | inr (inl same) ↦ subst (λ x. Reads (x ∷ d ∷ s)) (sym same) (end-Reads (d ∷ s)) t h
  | inr (inr (a, b)) ↦ plain-Reads c d s a b (quoted-StandsIn (d ∷ s)) t h
]

-- where an extracted text stands in a tag
abbrev pub IsFoundIn : Str → Str → Str → Type 0
IsFoundIn prefix t tag =
    IsEscaped t × ((before : Str) × (rest : Str) × (tag ≡ before ++ (prefix ++ (t ++ b'"' ∷ rest))))

quoted_after-IsFoundIn :
    (prefix tag : Str) (o : Option Str)
    → after_first prefix tag ≡ o
    → (quoted_after o ≡ []) ⊎ IsFoundIn prefix (quoted_after o) tag
unfolding quoted_after or_empty
quoted_after-IsFoundIn prefix tag none h = inl refl
quoted_after-IsFoundIn prefix tag (some s) h = elim (Option-cases (quoted s)) [
  | inl none_found ↦ inl (rw none_found refl)
  | inr (t, found) ↦
      let (before, e) = after_first-stands prefix tag s h in
      let (escaped, (rest, e')) = quoted-StandsIn s t found in
      inr (rw found (escaped, (before, rest, e ∙ ap (λ u. before ++ (prefix ++ u)) e')))
]

extract-IsFoundIn :
    (prefix tag : Str) → (extract prefix tag ≡ []) ⊎ IsFoundIn prefix (extract prefix tag) tag
unfolding extract
extract-IsFoundIn prefix tag = elim (Bool-cases (str_eq tag [])) [
  | inl nothing ↦ inl (rw nothing refl)
  | inr given ↦ simp (given) (quoted_after-IsFoundIn prefix tag (after_first prefix tag) refl)
]

-- The text that is taken from a tag stands in it between the key with a quote and a quote, and has no other quote but behind a
-- backslash, unless it is empty; this holds of the comments of fields and of messages.
pub extract_comment_from_tag-IsFoundIn :
    (tag : Str)
    → let doc = extract_comment_from_tag tag in
      let proto_doc = extract_proto_doc tag in
      ((doc ≡ []) ⊎ IsFoundIn (str "doc:\"") doc tag)
      × ((proto_doc ≡ []) ⊎ IsFoundIn (str "protoDoc:\"") proto_doc tag)
unfolding extract_comment_from_tag extract_proto_doc
extract_comment_from_tag-IsFoundIn tag =
    (extract-IsFoundIn (str "doc:\"") tag, extract-IsFoundIn (str "protoDoc:\"") tag)

-- A tag that starts with the key doc gives the text between its quotes, if the quotes in it stand behind a backslash.
pub extract_comment_from_tag-quoted :
    (t rest : Str) → IsEscaped t → extract_comment_from_tag (str "doc:\"" ++ (t ++ b'"' ∷ rest)) ≡ t
unfolding extract_comment_from_tag extract after_first quoted_after or_empty has_prefix str_eq
extract_comment_from_tag-quoted t rest h = ap or_empty (quoted-append t rest h)
