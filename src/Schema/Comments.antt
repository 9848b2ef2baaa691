-- ===== src/Schema/Comments.antt =====
-- schema/comments.go: the comments of a file's source information, and those of struct tags.
pub mod Tags
pub mod Kept
use hyperway.Prelude.{
  ℕ, ◌≡◌, Bool, true, false, not, ◌&&◌, Option, none, some, List, [], ◌∷◌, ◌++◌, map, ◌==◌, drop,
  length, if◌then◌else◌,
}
use hyperway.Prelude.Str.{Str, str, str_eq, has_prefix, split, trim_space}

pub record CommentInfo : Type 0 where
  pub leading : Str
  pub trailing : Str
  pub detached : List Str

-- SourceCodeInfo_Location
pub record Location : Type 0 where
  pub path : List ℕ
  pub span : List ℕ
  pub leading_comments : Option Str
  pub trailing_comments : Option Str
  pub leading_detached_comments : List Str

-- the lines after the first
unfoldable pub continued : List Str → Str
continued [] = []
continued (line ∷ more) =
    let rest = continued more in if str_eq line [] then 10 ∷ rest else 10 ∷ b' ' ∷ (line ++ rest)

unfoldable pub lines_joined : Str → List Str → Str
unfolding continued
lines_joined comment [] = comment
lines_joined comment (line ∷ []) = comment
lines_joined comment (line ∷ next ∷ more) = line ++ continued (next ∷ more)

unfoldable pub format_comment : Str → Str
unfolding lines_joined
format_comment comment =
    let trimmed = trim_space comment in
    if str_eq comment [] then [] else lines_joined trimmed (map trim_space (split 10 trimmed))

unfoldable pub formatted : Str → Option Str
unfolding format_comment
formatted comment = if str_eq comment [] then none else some (format_comment comment)

unfoldable pub is_nil {ℓ} : {A : Type ℓ} → List A → Bool
is_nil [] = true
is_nil (x ∷ xs) = false

-- whether there is anything to add
unfoldable pub has_comment : Option CommentInfo → Bool
unfolding is_nil
has_comment none = false
has_comment (some c) = not (str_eq c.leading [] && str_eq c.trailing [] && is_nil c.detached)

unfoldable pub location_of : List ℕ → CommentInfo → Location
unfolding formatted
location_of path c = record {
  path = path;
  span = 0 ∷ 0 ∷ 0 ∷ 0 ∷ [];
  leading_comments = formatted c.leading;
  trailing_comments = formatted c.trailing;
  leading_detached_comments = map format_comment c.detached;
}

unfoldable pub located : List ℕ → Option CommentInfo → List Location
unfolding location_of
located path none = []
located path (some c) = location_of path c ∷ []

-- `AddLocation`
unfoldable pub add_location : List ℕ → Option CommentInfo → List Location → List Location
unfolding has_comment located
add_location path comment locations =
    if not (has_comment comment)
    then locations
    else if is_nil path
    then locations
    else locations ++ located path comment

-- the loop of `Build`
unfoldable pub valid_locations : List Location → List Location
valid_locations [] = []
valid_locations (l ∷ more) =
    let rest = valid_locations more in if not (is_nil l.path) then l ∷ rest else rest

-- nil, or the locations
unfoldable pub unless_empty : List Location → Option (List Location)
unless_empty [] = none
unless_empty (l ∷ more) = some (l ∷ more)

-- `Build`
unfoldable pub build_source_info : List Location → Option (List Location)
unfolding valid_locations unless_empty
build_source_info [] = none
build_source_info (l ∷ more) = unless_empty (valid_locations (l ∷ more))

-- what stands behind the first place of a text, as strings.Index and the length of the text say
unfoldable pub after_first : Str → Str → Option Str
after_first p [] = if has_prefix p [] then some (drop (length p) []) else none
after_first p (c ∷ s) =
    let later = after_first p s in
    if has_prefix p (c ∷ s) then some (drop (length p) (c ∷ s)) else later

unfoldable pub prepended : Str → Option Str → Option Str
prepended s none = none
prepended s (some t) = some (s ++ t)

-- the loop over a tag, up to a quote that is not escaped: what stands before it, `none` where there is none
unfoldable pub quoted : Str → Option Str
unfolding prepended
quoted [] = none
quoted (c ∷ []) = if c == b'"' then some [] else none
quoted (c ∷ d ∷ s) =
    let escaped = prepended (c ∷ d ∷ []) (quoted s) in
    let plain = prepended (c ∷ []) (quoted (d ∷ s)) in
    if c == b'\\' then escaped else if c == b'"' then some [] else plain

unfoldable pub or_empty : Option Str → Str
or_empty none = []
or_empty (some s) = s

unfoldable pub quoted_after : Option Str → Str
unfolding quoted or_empty
quoted_after none = []
quoted_after (some s) = or_empty (quoted s)

-- what both functions do: the text in quotes behind a key and a colon
unfoldable pub extract : Str → Str → Str
unfolding after_first quoted_after
extract prefix tag = if str_eq tag [] then [] else quoted_after (after_first prefix tag)

unfoldable pub extract_comment_from_tag : Str → Str
unfolding extract
extract_comment_from_tag tag = extract (str "doc:\"") tag

unfoldable pub extract_proto_doc : Str → Str
unfolding extract
extract_proto_doc tag = extract (str "protoDoc:\"") tag
