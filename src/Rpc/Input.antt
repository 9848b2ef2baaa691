-- ===== src/Rpc/Input.antt =====
-- rpc/handler.go: how the body of a request becomes the input of a method, by the content type, and the
-- validation of that input. What the JSON and protobuf libraries do is a parameter.
pub mod Failures
use hyperway.Prelude.{Bool, true, false, ◌&&◌, ◌||◌, Option, none, some, ◌++◌, if◌then◌else◌}
use hyperway.Prelude.Str.{Str, str, str_eq, has_prefix}
use hyperway.Rpc.Codes.{code_internal, code_invalid_argument}
use hyperway.Rpc.Errors.{new_error, GoError, rpc, other, text, Outcome, done, failed}

-- What a method's context holds to decode inputs of type `I`; `Msg` is the codec's message.
pub record Decoder (I Msg : Type 0) : Type 0 where
  pub use_proto_input : Bool
  pub has_proto_input : Bool
  -- whether `newInputFunc` and `inputCodec` are not nil
  pub has_new_input : Bool
  pub has_input_codec : Bool
  -- into a fresh value: protojson and proto for a message, json for a struct
  pub protojson_unmarshal : Str → Outcome I
  pub proto_unmarshal : Str → Outcome I
  pub json_unmarshal : Str → Outcome I
  pub codec_unmarshal : Str → Outcome Msg
  pub proto_to_struct : Msg → Outcome I
  -- EnableValidation, and the method's own option
  pub enable_validation : Bool
  pub validate_option : Option Bool
  pub validate_struct : I → Option GoError
  pub validate_oneof : I → Option GoError

unfoldable pub is_json_content_type : Str → Bool
is_json_content_type t =
    str_eq t (str "application/json") || str_eq t (str "application/connect+json")

unfoldable pub is_protobuf_content_type : Str → Bool
is_protobuf_content_type t =
    str_eq t (str "application/protobuf")
    || str_eq t (str "application/x-protobuf")
    || str_eq t (str "application/proto")
    || str_eq t (str "application/connect+proto")
    || str_eq t (str "application/grpc+proto")

-- NewErrorf(CodeInvalidArgument, said + "%v", err) in place of an error
unfoldable pub invalid : {A : Type 0} → Str → Outcome A → Outcome A
invalid said (done a) = done a
invalid said (failed e) = failed (rpc (new_error code_invalid_argument (said ++ text e)))

module _ {I Msg : Type 0} (d : Decoder I Msg) where
  unfoldable pub unmarshal_proto_json : Str → Outcome I
  unfolding invalid
  unmarshal_proto_json body =
      invalid (str "failed to unmarshal JSON: ") (d.protojson_unmarshal body)

  unfoldable pub unmarshal_proto : Str → Outcome I
  unfolding invalid
  unmarshal_proto body = invalid (str "failed to unmarshal protobuf: ") (d.proto_unmarshal body)

  unfoldable pub decode_proto_default : Str → Str → Outcome I
  unfolding unmarshal_proto unmarshal_proto_json
  decode_proto_default t body =
      if has_prefix (str "application/grpc") t
      then unmarshal_proto body
      else unmarshal_proto_json body

  unfoldable pub decode_proto_input : Str → Str → Outcome I
  unfolding decode_proto_default
  decode_proto_input t body =
      if is_json_content_type t
      then unmarshal_proto_json body
      else if is_protobuf_content_type t
      then unmarshal_proto body
      else decode_proto_default t body

  unfoldable pub converted : Outcome Msg → Outcome I
  unfolding invalid
  converted (failed e) = failed e
  converted (done msg) = invalid (str "failed to convert proto to struct: ") (d.proto_to_struct msg)

  unfoldable pub decode_protobuf_to_struct : Str → Outcome I
  unfolding converted
  decode_protobuf_to_struct body =
      if d.has_input_codec
      then converted (invalid (str "failed to unmarshal protobuf: ") (d.codec_unmarshal body))
      else failed (rpc (new_error code_internal (str "inputCodec not initialized")))

  unfoldable pub decode_struct_default : Str → Str → Outcome I
  unfolding decode_protobuf_to_struct
  decode_struct_default t body =
      if has_prefix (str "application/grpc") t
      then decode_protobuf_to_struct body
      else invalid (str "failed to unmarshal: ") (d.json_unmarshal body)

  unfoldable pub decode_struct_input : Str → Str → Outcome I
  unfolding decode_struct_default
  decode_struct_input t body =
      if d.has_new_input
      then (if is_json_content_type t
          then invalid (str "failed to unmarshal JSON: ") (d.json_unmarshal body)
          else if is_protobuf_content_type t
          then decode_protobuf_to_struct body
          else decode_struct_default t body)
      else failed (rpc (new_error code_internal (str "newInputFunc not initialized")))

  unfoldable pub decode_input : Str → Str → Outcome I
  unfolding decode_proto_input decode_struct_input
  decode_input t body =
      if d.use_proto_input && d.has_proto_input
      then decode_proto_input t body
      else decode_struct_input t body

  unfoldable pub should_validate : Bool
  should_validate = elim d.validate_option [ none ↦ d.enable_validation | some own ↦ own ]

  unfoldable pub oneof_checked : Option GoError → Option GoError
  oneof_checked none = none
  oneof_checked (some e) = some (other (str "oneof validation failed: " ++ text e))

  unfoldable pub struct_checked : I → Option GoError → Option GoError
  unfolding oneof_checked
  struct_checked i none = oneof_checked (d.validate_oneof i)
  struct_checked i (some e) =
      some (rpc (new_error code_invalid_argument (str "validation failed: " ++ text e)))

  unfoldable pub validate_input : I → Option GoError
  unfolding should_validate struct_checked
  validate_input i = if should_validate then struct_checked i (d.validate_struct i) else none

  unfoldable pub checked : I → Option GoError → Outcome I
  checked i none = done i
  checked i (some e) = failed e

  unfoldable pub validated : Outcome I → Outcome I
  unfolding checked
  validated (failed e) = failed e
  validated (done i) = checked i (validate_input i)

  -- `processInput`
  unfoldable pub process_input : Str → Str → Outcome I
  unfolding validated
  process_input t body = validated (decode_input t body)
