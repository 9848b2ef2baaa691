-- ===== src/Gateway/Trailers/RoundTrip.antt =====
-- Trailers are read back from their text.
use hyperway.Prelude.{
  ◌≡◌, ◌≢◌, refl, sym, ap, ◌∙◌, false, none, some, List, [], ◌∷◌, ◌++◌, append_assoc, append-nil,
  arith, All,
}
use hyperway.Prelude.Str.{Str, str_eq, to_lower, trim_space, cut, lookup, insert}
use hyperway.Prelude.Str.Laws.{str_eq_refl}
use hyperway.Prelude.Str.Split.{IsFree, cut-sep}
use hyperway.Http.{Header, canonical, add, add_values, add_all, or_nil}
use hyperway.Gateway.Trailers.{
  add_cut, crlf, format_values, format_trailer_frame, lines_from, add_line, add_lines,
  parse_trailer_frame,
}

-- no carriage return
abbrev pub OneLine : Str → Type 0
OneLine s = All (λ c. c ≢ 13) s

lines_from-line :
    (cur a rest : Str)
    → OneLine a
    → lines_from cur (a ++ (crlf ++ rest)) ≡ (cur ++ a) ∷ lines_from [] rest
unfolding lines_from
lines_from-line cur [] rest h = rw (append-nil cur) refl
lines_from-line cur (c ∷ []) rest (hc, _) = ground arith
lines_from-line cur (c ∷ d ∷ a) rest (hc, h) =
    ground
      (arith, lines_from-line (cur ++ c ∷ []) (d ∷ a) rest h, append_assoc cur (c ∷ []) (d ∷ a))

-- a value that its line gives back: no carriage return in it and no space around it
abbrev pub IsValue : Str → Type 0
IsValue value = OneLine value × (trim_space (32 ∷ value) ≡ value)

-- A trailer that its text gives back. The text has its key in lower case: this has no colon, no carriage return and no
-- space around it, and its canonical form is that of the key.
abbrev pub IsTrailer : Str × List Str → Type 0
IsTrailer (key, values) =
    (canonical (to_lower key) ≡ canonical key)
    × IsFree 58 (to_lower key)
    × OneLine (to_lower key)
    × (trim_space (to_lower key) ≡ to_lower key)
    × All IsValue values

-- A map of trailers: its keys are canonical and differ, and each has a value.
abbrev pub IsMap : Header → Type 0
IsMap [] = Unit
IsMap ((key, values) ∷ more) =
    (canonical key ≡ key) × (values ≢ []) × All (λ p. str_eq key p.0 ≡ false) more × IsMap more

OneLine-append : (a b : Str) → OneLine a → OneLine b → OneLine (a ++ b)
OneLine-append [] b ha hb = hb
OneLine-append (c ∷ a) b (hc, ha) hb = (hc, OneLine-append a b ha hb)

-- the line of a trailer adds it
add_line-line :
    (key value : Str) (trailers : Header)
    → canonical (to_lower key) ≡ canonical key
    → IsFree 58 (to_lower key)
    → trim_space (to_lower key) ≡ to_lower key
    → trim_space (32 ∷ value) ≡ value
    → add_line (to_lower key ++ 58 ∷ 32 ∷ value) trailers ≡ add key value trailers
unfolding add_line add_cut add
add_line-line key value trailers same no_colon key_trim value_trim =
    at_cut (to_lower key)
    ∙ ap (add_cut trailers) (cut-sep 58 (to_lower key) (32 ∷ value) no_colon)
    ∙ ap (λ v. add (trim_space (to_lower key)) v trailers) value_trim
    ∙ ap (λ j. add j value trailers) key_trim
    ∙ ap (λ j. insert j (or_nil (lookup j trailers) ++ value ∷ []) trailers) same
  where
    at_cut :
        (k : Str)
        → add_line (k ++ 58 ∷ 32 ∷ value) trailers
          ≡ add_cut trailers (cut 58 (k ++ 58 ∷ 32 ∷ value))
    at_cut [] = refl
    at_cut (c ∷ k) = refl

values_back :
    (key : Str) (values : List Str) (rest : Str) (trailers : Header)
    → IsTrailer (key, values)
    → add_lines (lines_from [] (format_values key values ++ rest)) trailers
      ≡ add_lines (lines_from [] rest) (add_values key values trailers)
unfolding add_lines format_values add_values
values_back key [] rest trailers h = refl
values_back key (value ∷ more) rest trailers
      (same, no_colon, one_line, trimmed, ((value_line, value_trim), values)) =
    let line : Str = to_lower key ++ 58 ∷ 32 ∷ value in
    let tail : Str = format_values key more ++ rest in
    let free : OneLine line =
      OneLine-append (to_lower key) (58 ∷ 32 ∷ value) one_line
        (omega arith, (omega arith, value_line)) in
    ap (λ s. add_lines (lines_from [] s) trailers)
      (append_assoc line (crlf ++ format_values key more) rest)
    ∙ ap (λ ls. add_lines ls trailers) (lines_from-line [] line tail free)
    ∙ ap (add_lines (lines_from [] tail))
        (add_line-line key value trailers same no_colon trimmed value_trim)
    ∙ values_back key more rest (add key value trailers) (same, no_colon, one_line, trimmed, values)

header_back :
    (h : Header) (trailers : Header)
    → All IsTrailer h
    → add_lines (lines_from [] (format_trailer_frame h)) trailers ≡ add_all [] h trailers
unfolding add_lines lines_from format_trailer_frame add_line add_all
header_back [] trailers _ = refl
header_back ((key, values) ∷ more) trailers (h, hs) =
    values_back key values (format_trailer_frame more) trailers h
    ∙ header_back more (add_values key values trailers) hs

-- a key that a map does not have
Absent : Str → Header → Type 0
Absent key h = All (λ p. str_eq p.0 key ≡ false) h

lookup-Absent : (key : Str) (h : Header) → Absent key h → lookup key h ≡ none
unfolding Absent lookup
lookup-Absent key [] _ = refl
lookup-Absent key (p ∷ h) (differs, rest) = simp (differs) (lookup-Absent key h rest)

insert-Absent :
    (key : Str) (vs : List Str) (h : Header) → Absent key h → insert key vs h ≡ h ++ (key, vs) ∷ []
unfolding Absent insert
insert-Absent key vs [] _ = refl
insert-Absent key vs (p ∷ h) (differs, rest) =
    simp (differs) (ap (λ m. p ∷ m) (insert-Absent key vs h rest))

insert-last :
    (key : Str) (vs ws : List Str) (h : Header)
    → Absent key h
    → insert key ws (h ++ (key, vs) ∷ []) ≡ h ++ (key, ws) ∷ []
unfolding Absent insert
insert-last key vs ws [] _ = simp (str_eq_refl key) refl
insert-last key vs ws (p ∷ h) (differs, rest) =
    simp (differs) (ap (λ m. p ∷ m) (insert-last key vs ws h rest))

lookup-last :
    (key : Str) (vs : List Str) (h : Header)
    → Absent key h
    → lookup key (h ++ (key, vs) ∷ []) ≡ some vs
unfolding Absent lookup
lookup-last key vs [] _ = simp (str_eq_refl key) refl
lookup-last key vs (p ∷ h) (differs, rest) = simp (differs) (lookup-last key vs h rest)

add-last :
    (key v : Str) (vs : List Str) (h : Header)
    → canonical key ≡ key
    → Absent key h
    → add key v (h ++ (key, vs) ∷ []) ≡ h ++ (key, vs ++ v ∷ []) ∷ []
unfolding add or_nil
add-last key v vs h canon absent =
    let m = h ++ (key, vs) ∷ [] in
    ap (λ k. insert k (or_nil (lookup k m) ++ v ∷ []) m) canon
    ∙ ap (λ o. insert key (or_nil o ++ v ∷ []) m) (lookup-last key vs h absent)
    ∙ insert-last key vs (vs ++ v ∷ []) h absent

add-Absent :
    (key v : Str) (h : Header)
    → canonical key ≡ key
    → Absent key h
    → add key v h ≡ h ++ (key, v ∷ []) ∷ []
unfolding add or_nil
add-Absent key v h canon absent =
    ap (λ k. insert k (or_nil (lookup k h) ++ v ∷ []) h) canon
    ∙ ap (λ o. insert key (or_nil o ++ v ∷ []) h) (lookup-Absent key h absent)
    ∙ insert-Absent key (v ∷ []) h absent

add_values-last :
    (key : Str) (vs more : List Str) (h : Header)
    → canonical key ≡ key
    → Absent key h
    → add_values key more (h ++ (key, vs) ∷ []) ≡ h ++ (key, vs ++ more) ∷ []
unfolding add_values
add_values-last key vs [] h canon absent = ap (λ w. h ++ (key, w) ∷ []) (sym (append-nil vs))
add_values-last key vs (v ∷ more) h canon absent =
    ap (add_values key more) (add-last key v vs h canon absent)
    ∙ add_values-last key (vs ++ v ∷ []) more h canon absent
    ∙ ap (λ w. h ++ (key, w) ∷ []) (append_assoc vs (v ∷ []) more)

Absent-last :
    (j key : Str) (vs : List Str) (h : Header)
    → Absent j h
    → str_eq key j ≡ false
    → Absent j (h ++ (key, vs) ∷ [])
unfolding Absent
Absent-last j key vs [] _ differs = (differs, tt)
Absent-last j key vs (p ∷ h) (hp, rest) differs = (hp, Absent-last j key vs h rest differs)

All-Absent_last :
    (key : Str) (vs : List Str) (more h : Header)
    → All (λ p. Absent p.0 h) more
    → All (λ p. str_eq key p.0 ≡ false) more
    → All (λ p. Absent p.0 (h ++ (key, vs) ∷ [])) more
All-Absent_last key vs [] h _ _ = tt
All-Absent_last key vs (p ∷ more) h (hp, rest) (differs, others) =
    (Absent-last p.0 key vs h hp differs, All-Absent_last key vs more h rest others)

-- adding all of a map to others, which have none of its keys
add_all-IsMap :
    (h before : Header)
    → IsMap h
    → All (λ p. Absent p.0 before) h
    → add_all [] h before ≡ before ++ h
unfolding add_all add_values
add_all-IsMap [] before _ _ = sym (append-nil before)
add_all-IsMap ((key, []) ∷ more) before (_, some_value, _, _) _ = absurd (some_value refl)
add_all-IsMap ((key, v ∷ vs) ∷ more) before (canon, _, others, is) (absent, rest) =
    ap (λ h. add_all [] more (add_values key vs h)) (add-Absent key v before canon absent)
    ∙ ap (add_all [] more) (add_values-last key (v ∷ []) vs before canon absent)
    ∙ add_all-IsMap more (before ++ (key, v ∷ vs) ∷ []) is
        (All-Absent_last key (v ∷ vs) more before rest others)
    ∙ append_assoc before ((key, v ∷ vs) ∷ []) more

All-Absent_nil : (h : Header) → All (λ p. Absent p.0 []) h
unfolding Absent
All-Absent_nil [] = tt
All-Absent_nil (p ∷ h) = (tt, All-Absent_nil h)

-- A map of trailers is read back from its text, every value of every key in its order, if its keys are canonical and differ,
-- each key has a value, a key in lower case has the same canonical form and no colon, no carriage return and no space around
-- it, and no value has a carriage return in it or space around it.
pub parse_trailer_frame-format_trailer_frame :
    (h : Header) → IsMap h → All IsTrailer h → parse_trailer_frame (format_trailer_frame h) ≡ h
unfolding parse_trailer_frame
parse_trailer_frame-format_trailer_frame h is trailers =
    header_back h [] trailers ∙ add_all-IsMap h [] is (All-Absent_nil h)
