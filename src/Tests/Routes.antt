-- ===== src/Tests/Routes.antt =====
-- A gateway of two services, one with a path that the other has too, and a request of an origin that is not allowed.
use hyperway.Prelude.{true, false, none, List, [], ◌∷◌}
use hyperway.Prelude.Int.{pos}
use hyperway.Prelude.Str.{Str, str}
use hyperway.Gateway.GrpcWeb.{writes}
use hyperway.Gateway.GrpcWeb.Handler.{HttpRequest, Outside}
use hyperway.Gateway.Routes.{HttpHandler, Handlers, CorsConfig, build_handlers_map}

abbrev says : Str → HttpHandler
says s r = writes s ∷ []

abbrev services : List Handlers
services =
    ((str "/a.A/Say", says (str "a")) ∷ [])
    ∷ ((str "/a.A/Say", says (str "b")) ∷ (str "/b/", says (str "c")) ∷ [])
    ∷ []

abbrev all_handlers : Handlers
all_handlers = build_handlers_map services []

abbrev outside : Outside
outside = record {
  serve = λ r. writes r.body.rest ∷ [];
  url_error = λ url. none;
  error_json = λ body. none;
  conn_error = str "reset";
  takes = λ w. true;
  decoder = λ r. r;
  encode = λ held bytes. (bytes, held);
  encode_close = λ held. [];
}

abbrev stranger : HttpRequest
stranger = record {
  method = str "POST";
  url = str "/b/x";
  header = (str "Origin", str "https://evil.example" ∷ []) ∷ [];
  body = record { rest = []; broken = false };
}

abbrev strict : CorsConfig
strict = record {
  allowed_origins = str "https://good.example" ∷ [];
  allowed_methods = str "POST" ∷ [];
  allowed_headers = [];
  allow_credentials = false;
  max_age = pos 60;
}
