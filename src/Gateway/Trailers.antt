-- ===== src/Gateway/Trailers.antt =====
-- The payload of a trailer frame (gateway/grpcweb_framing.go): lines `key: value`, each closed by CR LF.
-- A map is iterated in the order of its list.
pub mod RoundTrip
use hyperway.Prelude.{
  ℕ, Bool, true, false, Option, none, some, List, [], ◌∷◌, ◌++◌, ◌==◌, if◌then◌else◌,
}
use hyperway.Prelude.Str.{Str, str, to_lower, trim_space, cut}
use hyperway.Http.{Header, add}

abbrev pub crlf : Str
crlf = 13 ∷ 10 ∷ []

unfoldable pub format_values : Str → List Str → Str
format_values key [] = []
format_values key (value ∷ more) =
    (to_lower key ++ (58 ∷ 32 ∷ value)) ++ (crlf ++ format_values key more)

unfoldable pub format_trailer_frame : Header → Str
unfolding format_values
format_trailer_frame [] = []
format_trailer_frame ((key, values) ∷ more) = format_values key values ++ format_trailer_frame more

-- strings.Split(s, "\r\n")
unfoldable pub lines_from : Str → Str → List Str
lines_from cur [] = cur ∷ []
lines_from cur (c ∷ []) = (cur ++ c ∷ []) ∷ []
lines_from cur (c ∷ d ∷ s) =
    let closed = cur ∷ lines_from [] s in
    let longer = lines_from (cur ++ c ∷ []) (d ∷ s) in
    if (if c == 13 then d == 10 else false) then closed else longer

add_cut : Header → Option (Str × Str) → Header
add_cut trailers none = trailers
add_cut trailers (some (key, value)) = add (trim_space key) (trim_space value) trailers

-- One line: an empty line or one without a colon is skipped. The empty line has no colon.
unfoldable pub add_line : Str → Header → Header
unfolding add_cut
add_line [] trailers = trailers
add_line (c ∷ line) trailers = add_cut trailers (cut 58 (c ∷ line))

unfoldable pub add_lines : List Str → Header → Header
add_lines [] trailers = trailers
add_lines (line ∷ more) trailers = add_lines more (add_line line trailers)

unfoldable pub parse_trailer_frame : Str → Header
unfolding add_lines lines_from
parse_trailer_frame payload = add_lines (lines_from [] payload) []
