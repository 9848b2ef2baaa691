-- ===== src/Http.antt =====
-- What the program uses of Go's net/http: header maps under canonical keys, and a response writer
-- whose header counts up to the first WriteHeader or Write.
pub mod Laws
use hyperway.Prelude.{
  ℕ, ◌≡◌, Bool, true, false, ◌&&◌, ◌||◌, Option, none, some, List, [], ◌∷◌, ◌++◌, leb, ◌==◌,
  if◌then◌else◌,
}
use hyperway.Prelude.Str.{Str, str, lookup, insert, lower_byte, upper_byte}

-- The keys of the map are the canonical ones.
abbrev pub Header : Type 0
Header = List (Str × List Str)

is_letter : ℕ → Bool
is_letter c = (leb b'a' c && leb c b'z') || (leb b'A' c && leb c b'Z')

-- letters, digits and !#$%&'*+-.^_`|~
is_token_byte : ℕ → Bool
unfolding is_letter
is_token_byte c =
    is_letter c
    || (leb b'0' c && leb c b'9')
    || c == 33
    || (leb 35 c && leb c 39)
    || c == 42
    || c == 43
    || c == 45
    || c == 46
    || (leb 94 c && leb c 96)
    || c == 124
    || c == 126

all_token : Str → Bool
unfolding is_token_byte
all_token [] = true
all_token (c ∷ s) = is_token_byte c && all_token s

title_from : Bool → Str → Str
title_from up [] = []
title_from up (c ∷ s) = (if up then upper_byte c else lower_byte c) ∷ title_from (c == 45) s

-- textproto.CanonicalMIMEHeaderKey
unfoldable pub canonical : Str → Str
unfolding all_token title_from
canonical s = if all_token s then title_from true s else s

unfoldable pub first_value : Option (List Str) → Str
first_value (some (v ∷ vs)) = v
first_value _ = []

-- h.Get(key)
unfoldable pub get : Str → Header → Str
unfolding first_value
get k h = first_value (lookup (canonical k) h)

-- h.Set(key, value)
unfoldable pub set : Str → Str → Header → Header
set k v h = insert (canonical k) (v ∷ []) h

unfoldable pub or_nil : Option (List Str) → List Str
or_nil none = []
or_nil (some vs) = vs

-- h.Add(key, value)
unfoldable pub add : Str → Str → Header → Header
unfolding or_nil
add k v h = insert (canonical k) (or_nil (lookup (canonical k) h) ++ v ∷ []) h

-- for key, values := range extra { for _, value := range values { h.Add(prefix + key, value) } }
unfoldable pub add_values : Str → List Str → Header → Header
add_values k [] h = h
add_values k (v ∷ vs) h = add_values k vs (add k v h)

unfoldable pub add_all : Str → Header → Header → Header
add_all prefix [] h = h
add_all prefix ((k, vs) ∷ more) h = add_all prefix more (add_values (prefix ++ k) vs h)

-- A response: the live header map, what was sent as head (the status and the header at that
-- moment), and the body written so far. `B` is what a handler writes.
pub record Writer (B : Type 0) : Type 0 where
  pub header : Header
  pub head : Option (ℕ × Header)
  pub body : List B

unfoldable pub commit : ℕ → Header → Option (ℕ × Header) → Option (ℕ × Header)
commit status h none = some (status, h)
commit status h (some sent) = some sent

module _ {B : Type 0} where
  abbrev pub fresh : Writer B
  fresh = record { header = []; head = none; body = [] }

  unfoldable pub set_header : Str → Str → Writer B → Writer B
  set_header k v w = record w { header = set k v w.header }

  -- w.WriteHeader(status): a second call is ignored
  unfoldable pub write_header : ℕ → Writer B → Writer B
  unfolding commit
  write_header status w = record w { head = commit status w.header w.head }

  -- w.Write(data): implies WriteHeader(200)
  unfoldable pub write : B → Writer B → Writer B
  unfolding write_header
  write data' w = record (write_header 200 w) { body = w.body ++ data' ∷ [] }

-- the status that a finished response has
unfoldable pub status_of : {B : Type 0} → Writer B → ℕ
status_of w = elim w.head [ none ↦ 200 | some p ↦ p.0 ]

-- http.Error(w, message, status)
unfoldable pub http_error : Str → ℕ → Writer Str → Writer Str
unfolding write_header write set_header
http_error message status w =
    let typed =
      set_header (str "X-Content-Type-Options") (str "nosniff")
        (set_header (str "Content-Type") (str "text/plain; charset=utf-8") w) in
    write (message ++ 10 ∷ []) (write_header status typed)
