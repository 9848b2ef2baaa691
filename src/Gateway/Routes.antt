-- ===== src/Gateway/Routes.antt =====
-- gateway/gateway.go: the handlers of the services, the CORS headers, and where the gateway sends a request. net/http's
-- ServeMux and the path of a URL are parameters; the export of proto files is a route.
pub mod Cors
pub mod Lookup
use hyperway.Prelude.{
  ℕ, ◌≡◌, Bool, true, false, not, ◌&&◌, ◌||◌, Option, none, some, List, [], ◌∷◌, ◌++◌, ltb, length,
  if◌then◌else◌,
}
use hyperway.Prelude.Int.{ℤ, pos, negsuc, ltb_ℤ}
use hyperway.Prelude.Str.{Str, str, str_eq, lookup, insert, contains, has_prefix, has_suffix}
use hyperway.Prelude.Str.Numbers.{itoa}
use hyperway.Http.{Header, Writer, get, add, set_header, write_header, write, http_error}
use hyperway.Gateway.GrpcWeb.{Action, write_actions}
use hyperway.Gateway.GrpcWeb.Handler.{HttpRequest, Outside, is_grpc_web, serve_grpc_web}

-- a handler: what it does with its response writer
abbrev pub HttpHandler : Type 0
HttpHandler = HttpRequest → List Action

-- the handlers by their paths
abbrev pub Handlers : Type 0
Handlers = List (Str × HttpHandler)

pub record CorsConfig : Type 0 where
  pub allowed_origins : List Str
  pub allowed_methods : List Str
  pub allowed_headers : List Str
  pub allow_credentials : Bool
  pub max_age : ℤ

pub record Options : Type 0 where
  pub enable_open_api : Bool
  pub open_api_path : Str
  pub cors_config : Option CorsConfig

pub record Gateway : Type 0 where
  pub handlers : Handlers
  pub options : Options
  -- the cached document, if it is not nil
  pub open_api : Option Str

unfoldable pub set_default_options : Options → Options
set_default_options opts =
    if str_eq opts.open_api_path (str "")
    then record opts { open_api_path = str "/openapi.json" }
    else opts

-- the loop of `buildHandlersMap` over one map, which is in no order
unfoldable pub add_handlers : Handlers → Handlers → Handlers
add_handlers [] handlers = handlers
add_handlers ((path, handler) ∷ more) handlers = insert path handler (add_handlers more handlers)

-- `buildHandlersMap`, from the handlers that are there
unfoldable pub build_handlers_map : List Handlers → Handlers → Handlers
unfolding add_handlers
build_handlers_map [] handlers = handlers
build_handlers_map (service ∷ more) handlers =
    build_handlers_map more (add_handlers service handlers)

-- the loop of `findHandler` over the prefixes
unfoldable pub by_prefix : Str → Handlers → Option HttpHandler
by_prefix path [] = none
by_prefix path ((prefix, handler) ∷ more) =
    if has_suffix (str "/") prefix && has_prefix prefix path
    then some handler
    else by_prefix path more

unfoldable pub found_or : Option HttpHandler → Option HttpHandler → Option HttpHandler
found_or (some handler) other = some handler
found_or none other = other

unfoldable pub find_handler : Handlers → Str → Option HttpHandler
unfolding by_prefix found_or
find_handler handlers path = found_or (lookup path handlers) (by_prefix path handlers)

unfoldable pub join_strings : List Str → Str
join_strings [] = []
join_strings (s ∷ []) = s
join_strings (s ∷ t ∷ more) = s ++ str ", " ++ join_strings (t ∷ more)

abbrev pub add_header : Str → Str → Writer Str → Writer Str
add_header k v w = record w { header = add k v w.header }

-- `handleCORSHeaders`: whether the request is answered
unfoldable pub handle_cors_headers : HttpRequest → Writer Str → Bool × Writer Str
handle_cors_headers r w =
    let origin = get (str "Origin") r.header in
    let open_to_all = add_header (str "Access-Control-Expose-Headers") (str "*") (
      add_header (str "Access-Control-Allow-Headers") (str "*") (
        add_header (str "Access-Control-Allow-Methods") (str "HEAD, GET, POST, PUT, PATCH, DELETE")
          (add_header (str "Access-Control-Allow-Credentials") (str "true")
            (add_header (str "Access-Control-Allow-Origin") origin w)))) in
    if str_eq origin []
    then (false, w)
    else if str_eq r.method (str "OPTIONS")
    then (true, write_header 200 open_to_all)
    else (false, open_to_all)

-- whether the configuration allows an origin
unfoldable pub allows : List Str → Str → Bool
allows [] origin = false
allows (allowed ∷ more) origin =
    str_eq allowed (str "*") || str_eq allowed origin || allows more origin

abbrev pub set_if : Bool → Str → Str → Writer Str → Writer Str
set_if b k v w = if b then set_header k v w else w

unfoldable pub is_empty : List Str → Bool
is_empty [] = true
is_empty (s ∷ more) = false

-- the text of a number that is positive
unfoldable pub positive_text : ℤ → Str
positive_text (pos n) = itoa n
positive_text (negsuc n) = []

-- `handleCORS`
unfoldable pub handle_cors : CorsConfig → HttpRequest → Writer Str → Writer Str
unfolding is_empty positive_text
handle_cors cfg r w =
    let origin = get (str "Origin") r.header in
    set_if (ltb_ℤ (pos 0) cfg.max_age) (str "Access-Control-Max-Age") (positive_text cfg.max_age) (
      set_if cfg.allow_credentials (str "Access-Control-Allow-Credentials") (str "true") (
        set_if (not (is_empty cfg.allowed_headers)) (str "Access-Control-Allow-Headers")
          (join_strings cfg.allowed_headers)
          (set_if (not (is_empty cfg.allowed_methods)) (str "Access-Control-Allow-Methods")
            (join_strings cfg.allowed_methods)
            (set_if (allows cfg.allowed_origins origin) (str "Access-Control-Allow-Origin") origin
              w))))

unfoldable pub handle_unimplemented : HttpRequest → Writer Str → Writer Str
handle_unimplemented r w =
    let content_type = get (str "Content-Type") r.header in
    if has_prefix (str "application/grpc") content_type
    then write_header 200 (
        set_header (str "grpc-message") (str "Method not found") (
          set_header (str "grpc-status") (str "12")
            (set_header (str "Content-Type") content_type w)))
    else if contains (str "connect") content_type
        || str_eq (get (str "Connect-Protocol-Version") r.header) (str "1")
    then write (str "{\"code\":\"unimplemented\",\"message\":\"Method not found\"}")
        (write_header 404 (set_header (str "Content-Type") (str "application/json") w))
    else http_error (str "404 page not found") 404 w

-- an answer, or the export of proto files with a writer
pub data Served : Type 0 where
  answer : Writer Str → Served
  proto_export : Writer Str → Served

-- `mux` is a ServeMux with one handler at a path; `outside` is what the gRPC-Web handler uses of other code.
module _ (mux : Str → HttpHandler → HttpHandler) (outside : Outside)
    (path_of : HttpRequest → Str) where
  unfoldable pub handle_grpc_web_request : HttpHandler → HttpRequest → Writer Str → Writer Str
  handle_grpc_web_request handler r w =
      serve_grpc_web (record outside { serve = mux (path_of r) handler }) r w

  unfoldable pub routed : Option HttpHandler → HttpRequest → Writer Str → Writer Str
  unfolding handle_grpc_web_request
  routed none r w = handle_unimplemented r w
  routed (some handler) r w =
      if is_grpc_web r then handle_grpc_web_request handler r w else write_actions (handler r) w

  -- the handler of `createMultiProtocolHandler`
  unfoldable pub multi_protocol : Handlers → HttpRequest → Writer Str → Writer Str
  unfolding routed
  multi_protocol handlers r w =
      let (answered, w') = handle_cors_headers r w in
      if answered then w' else routed (find_handler handlers (path_of r)) r w'

  unfoldable pub serve_open_api : Gateway → Writer Str → Writer Str
  serve_open_api g w =
      let typed = set_header (str "Content-Type") (str "application/json") w in
      elim g.open_api [
        | some document ↦ write document typed
        | none ↦
            write
              (str
                "{\"openapi\":\"3.0.0\",\"info\":{\"title\":\"Hyperway API\",\"version\":\"1.0.0\"}}")
              typed
      ]

  unfoldable pub dispatched : Gateway → HttpRequest → Writer Str → Served
  unfolding multi_protocol serve_open_api
  dispatched g r w =
      let path = path_of r in
      if g.options.enable_open_api && str_eq path g.options.open_api_path
      then answer (serve_open_api g w)
      else if str_eq path (str "/proto")
          || str_eq path (str "/proto/")
          || str_eq path (str "/proto.zip")
          || has_prefix (str "/proto/") path
      then proto_export w
      else answer (multi_protocol g.handlers r w)

  unfoldable pub after_cors : Gateway → HttpRequest → Writer Str → Option CorsConfig → Served
  unfolding dispatched
  after_cors g r w none = dispatched g r w
  after_cors g r w (some cfg) =
      let w' = handle_cors cfg r w in
      if str_eq r.method (str "OPTIONS") then answer w' else dispatched g r w'

  -- ServeHTTP of the gateway
  unfoldable pub serve_http : Gateway → HttpRequest → Writer Str → Served
  unfolding after_cors
  serve_http g r w = after_cors g r w g.options.cors_config
