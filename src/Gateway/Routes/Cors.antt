-- ===== src/Gateway/Routes/Cors.antt =====
-- What the CORS headers of a response are.
use hyperway.Prelude.{Option, some, ◌≡◌, ◌⊎◌, none}
use hyperway.Prelude.Str.{Str, lookup}
use hyperway.Http.{Header, Writer, canonical, fresh}
use hyperway.Http.Laws.{Has}
use hyperway.Gateway.GrpcWeb.Handler.{HttpRequest}
use hyperway.Gateway.Routes.{CorsConfig, handle_cors}

-- the header has no such key
abbrev Lacks : Str → Header → Type 0
Lacks k h = lookup (canonical k) h ≡ none

-- no other value than the given one
abbrev OnlyThe : Str → Str → Header → Type 0
OnlyThe k v h = Lacks k h ⊎ Has k v h

-- the response when `handleCORS` has had its turn, if the gateway is configured
unfoldable pub configured : Option CorsConfig → HttpRequest → Writer Str
configured none r = fresh
configured (some cfg) r = handle_cors cfg r fresh
