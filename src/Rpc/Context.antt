-- ===== src/Rpc/Context.antt =====
-- rpc/handler.go: what a handler's context gathers for the response, and what it shows of the request. A nil
-- map and an empty one read alike, and a Go map is iterated in the order of its list here.
use hyperway.Prelude.{Option, none, some, List, [], ◌∷◌, ◌++◌}
use hyperway.Prelude.Str.{Str, lookup, insert}
use hyperway.Http.{Header}

-- the fields of `handlerContext` that a request changes
pub record Context : Type 0 where
  pub response_headers : Header
  pub response_trailers : Header
  pub request_headers : Header

values_of : Option (List Str) → List Str
values_of none = []
values_of (some vs) = vs

-- h[key] = append(h[key], value), under the key as it is given
append_value : Str → Str → Header → Header
unfolding values_of
append_value k v h = insert k (values_of (lookup k h) ++ v ∷ []) h

unfoldable pub set_response_header : Str → Str → Context → Context
unfolding append_value
set_response_header k v c = record c { response_headers = append_value k v c.response_headers }

unfoldable pub set_response_trailer : Str → Str → Context → Context
unfolding append_value
set_response_trailer k v c = record c { response_trailers = append_value k v c.response_trailers }

unfoldable pub get_request_header : Str → Context → List Str
unfolding values_of
get_request_header k c = values_of (lookup k c.request_headers)

-- the context that `createHTTPHandler` takes from the pool for a request
unfoldable pub fresh_context : Header → Context
fresh_context headers = record {
  response_headers = [];
  response_trailers = [];
  request_headers = headers;
}
