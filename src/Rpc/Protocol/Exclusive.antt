-- ===== src/Rpc/Protocol/Exclusive.antt =====
-- What a request can ask for at the same time.
use hyperway.Prelude.{◌≡◌, false, not, ◌&&◌, ◌||◌, arith}
use hyperway.Rpc.Protocol.{
  Incoming, ProtocolInfo, detect_protocol_type, prefer, override, grpc_default,
  detect_codec_preference, detect_protocol,
}

-- one protocol at most and one codec at most, and a codec for gRPC
abbrev pub IsExclusive : ProtocolInfo → Type 0
IsExclusive p =
    (p.is_grpc && p.is_grpc_web ≡ false)
    × (p.is_json_rpc && (p.is_grpc || p.is_grpc_web) ≡ false)
    × (p.wants_json && p.wants_proto ≡ false)
    × (p.is_grpc && not (p.wants_json || p.wants_proto) ≡ false)

-- A request is detected as one of JSON-RPC, gRPC and gRPC-Web at most; it never wants both codecs,
-- whatever its Content-Type and Accept headers say; and a gRPC request always wants one.
pub detect_protocol-IsExclusive : (r : Incoming) → IsExclusive (detect_protocol r)
unfolding detect_protocol detect_codec_preference detect_protocol_type prefer override grpc_default
detect_protocol-IsExclusive r = ground arith
