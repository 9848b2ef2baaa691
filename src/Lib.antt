-- ===== src/Lib.antt =====
-- Verification of hyperway, a library that serves Go functions over gRPC, Connect, gRPC-Web and
-- JSON-RPC.
--
-- A request comes to the gateway (gateway/), which turns a gRPC-Web request into a plain one and
-- its answer into frames; the service (rpc/handler.go) detects the protocol, decodes the input,
-- calls the handler through a chain of interceptors and encodes the output or the error; one
-- interceptor retries (rpc/retry_interceptor.go); the descriptors of messages are cached
-- (schema/cache.go).
--
--   Prelude: names of the libraries, Boolean tests, lists, integers and Go strings as bytes, with
--   strconv's Itoa and Atoi. Http: what is used of net/http (header maps, a response writer whose
--   first status counts). Float: float64 as an interface, with an exact implementation.
--   Rpc.Codes, Rpc.Errors: rpc/errors.go, rpc/error_details.go and the tables of codes in
--   rpc/handler.go, rpc/retry_interceptor.go and rpc/jsonrpc_types.go.
--   Rpc.Retry: rpc/retry.go (validation, parsing, backoff). Rpc.Interceptor, Rpc.Throttle and
--   Rpc.RetryLoop: rpc/retry_interceptor.go (findRetryPolicy, extractStatusCode, isRetryable,
--   extractPushbackMs; the token bucket; Intercept). The loop's fuel is the number of attempts
--   that its condition still allows, so it never runs out early. What happens while it waits is
--   a parameter, as other requests share the bucket.
--   Rpc.Protocol: rpc/handler.go, detectProtocol, handleRequest's routes, parseGRPCTimeout,
--   parseRequestTimeout, writeError, writeConnectError, writeGRPCError. Durations wrap as int64.
--   Rpc.Unary: rpc/handler.go, handleGRPCRequest, decodeGRPCInput, encodeGRPCResponse, callHandler.
--   Rpc.Context, Rpc.Input, Rpc.Standard: rpc/handler.go, a unary call that is not of gRPC
--   (readRequestBody, decodeInput, validateInput, processUnaryRequest, encodeResponse, maybeCompress).
--   Rpc.Compression: rpc/compression.go over a gzip library that is a parameter.
--   Rpc.Stream: rpc/handler_streaming.go, serverStreamWriter as a state with the results of its next
--   writes; Rpc.Stream.Handler has the whole call, in which a handler is a tree of what it does.
--   Rpc.Interceptors: rpc/interceptors.go but for TimeoutInterceptor; how long a call takes is a parameter.
--   Rpc.JsonRpc: rpc/handler_jsonrpc.go and rpc/jsonrpc_types.go; Rpc.JsonRpc.Batch has the
--   goroutines of a batch as a step relation, with the loop, the semaphore and the list of responses.
--   Gateway.Frames, Gateway.Trailers: gateway/grpcweb_framing.go and readRequestMessage of
--   gateway/grpcweb.go. The loop over frames has one round for each byte and one more, which is
--   enough as a frame takes five bytes; its value `stuck` is no value of the program.
--   Gateway.GrpcWeb and Gateway.GrpcWeb.Handler: gateway/grpcweb.go, from ServeHTTP to the frames.
--   Gateway.Routes: gateway/gateway.go, ServeHTTP with the CORS headers and findHandler.
--   Schema.Features: schema/editions.go, schema/editions_features.go, schema/features_compare.go and
--   the features and defaults that applyFieldTags of schema/builder.go sets.
--   Schema.Validation, Schema.Comments: schema/validation.go and schema/comments.go; strings.Index is
--   written as the text behind the first place.
--   Schema.Oneof: schema/oneof.go and schema/oneof_validation.go, on a list of fields that reflection shows.
--   Reflect: internal/reflect/convert.go, the names (camelToSnake, snakeToCamel and their cache) and
--   getFieldMappings, which converts names without the cache; Reflect.Numbers has the integers of
--   setProtoValue.
--   Schema.Cache: schema/cache.go; an element of the list is a cell with an identity, which holds its
--   entry; the value `stale`, for an entry in a map whose element has left the list, is no value of
--   the program.
--   Tests: the theorems at concrete inputs.
--
-- The libraries for JSON, protobuf, gzip, base64, URLs and durations are parameters, as are the
-- handlers of the user. Maps are lists of pairs and are iterated in the order of the list. Case
-- mappings and white space are those of ASCII. The pools of buffers are not modelled. Not modelled: the schema builder, the codec and the copy of
-- values by reflection, which are calls of protobuf libraries over Go types; the export of proto files, the
-- OpenAPI document, the command line, examples and benchmarks.
pub mod Prelude
pub mod Http
pub mod Float
pub mod Reflect
pub mod Schema
pub mod Gateway
pub mod Rpc
pub mod Tests
