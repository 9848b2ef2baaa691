-- ===== src/Rpc/Unary/Answered.antt =====
-- What a gRPC client gets for a unary call.
use hyperway.Prelude.{if◌then◌else◌}
use hyperway.Prelude.Str.{Str, str}
use hyperway.Http.{Writer, fresh, set_header, write_header}
use hyperway.Rpc.Protocol.{Incoming, detect_protocol}

-- the writer when the head of a response is sent
started : Incoming → Writer Str
started r = write_header 200 (
    set_header (str "Trailer") (str "grpc-status, grpc-message") (
      set_header (str "Content-Type")
        (if (detect_protocol r).wants_json
          then str "application/grpc+json"
          else str "application/grpc+proto")
        fresh))
