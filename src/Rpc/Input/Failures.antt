-- ===== src/Rpc/Input/Failures.antt =====
-- What the failures to decode or to validate an input are.
use hyperway.Prelude.{
  ◌≡◌, refl, ◌⊎◌, inl, inr, Bool, true, ◌&&◌, if_both, Option, none, some, if◌then◌else◌,
}
use mathlib.Core.Path.{subst}
use hyperway.Prelude.Str.{Str, str, contains, has_prefix}
use hyperway.Rpc.Codes.{code_invalid_argument}
use hyperway.Rpc.Errors.{new_error, GoError, Outcome, done, failed}
use hyperway.Rpc.Protocol.{Incoming, rpc_error}
use hyperway.Rpc.Input.{
  Decoder, is_json_content_type, is_protobuf_content_type, invalid, unmarshal_proto_json,
  unmarshal_proto, decode_proto_default, decode_proto_input, converted, decode_protobuf_to_struct,
  decode_struct_default, decode_struct_input, decode_input, should_validate, oneof_checked,
  struct_checked, validate_input, checked, validated, process_input,
}

-- What a method needs to decode its inputs: a protobuf type, or a constructor of structs and a codec.
abbrev pub IsPrepared : {I Msg : Type 0} → Decoder I Msg → Type 0
IsPrepared d =
    ((d.use_proto_input && d.has_proto_input) ≡ true)
    ⊎ ((d.has_new_input ≡ true) × (d.has_input_codec ≡ true))

-- the error is reported as an invalid argument, whatever the request
abbrev pub IsInvalid : GoError → Type 0
IsInvalid e = (r : Incoming) → (rpc_error r e).code ≡ code_invalid_argument

abbrev pub FailsWell : {I : Type 0} → Outcome I → Type 0
FailsWell (done i) = Unit {0}
FailsWell (failed e) = IsInvalid e

invalid-FailsWell : {A : Type 0} (said : Str) (o : Outcome A) → FailsWell (invalid said o)
unfolding invalid new_error rpc_error
invalid-FailsWell said (done a) = tt
invalid-FailsWell said (failed e) = λ r. refl

choose-FailsWell :
    {I : Type 0} (b : Bool) (x y : Outcome I)
    → FailsWell x
    → FailsWell y
    → FailsWell (if b then x else y)
choose-FailsWell {I} b x y hx hy = if_both (λ (o : Outcome I). FailsWell o) b x y hx hy

module _ {I Msg : Type 0} (d : Decoder I Msg) where
  decode_proto_input-FailsWell : (t body : Str) → FailsWell (decode_proto_input d t body)
  unfolding decode_proto_input decode_proto_default unmarshal_proto unmarshal_proto_json
  decode_proto_input-FailsWell t body =
      let json =
        invalid-FailsWell (str "failed to unmarshal JSON: ") (d.protojson_unmarshal body) in
      let proto =
        invalid-FailsWell (str "failed to unmarshal protobuf: ") (d.proto_unmarshal body) in
      let j = unmarshal_proto_json d body in
      let p = unmarshal_proto d body in
      let rest = decode_proto_default d t body in
      choose-FailsWell (is_json_content_type t) j (if is_protobuf_content_type t then p else rest)
        json
        (choose-FailsWell (is_protobuf_content_type t) p rest proto
          (choose-FailsWell (has_prefix (str "application/grpc") t) p j proto json))

  converted-FailsWell : (o : Outcome Msg) → FailsWell o → FailsWell (converted d o)
  unfolding converted
  converted-FailsWell (failed e) fails = fails
  converted-FailsWell (done msg) fails =
      invalid-FailsWell (str "failed to convert proto to struct: ") (d.proto_to_struct msg)

  module _ (has_new : d.has_new_input ≡ true) (has_codec : d.has_input_codec ≡ true) where
    decode_protobuf_to_struct-FailsWell :
        (body : Str) → FailsWell (decode_protobuf_to_struct d body)
    unfolding decode_protobuf_to_struct
    decode_protobuf_to_struct-FailsWell body = simp (has_codec) (
        converted-FailsWell
          (invalid (str "failed to unmarshal protobuf: ") (d.codec_unmarshal body))
          (invalid-FailsWell (str "failed to unmarshal protobuf: ") (d.codec_unmarshal body)))

    decode_struct_input-FailsWell : (t body : Str) → FailsWell (decode_struct_input d t body)
    unfolding decode_struct_input decode_struct_default
    decode_struct_input-FailsWell t body =
        let json = invalid-FailsWell (str "failed to unmarshal JSON: ") (d.json_unmarshal body) in
        let bare = invalid-FailsWell (str "failed to unmarshal: ") (d.json_unmarshal body) in
        let proto = decode_protobuf_to_struct-FailsWell body in
        let j = invalid (str "failed to unmarshal JSON: ") (d.json_unmarshal body) in
        let b = invalid (str "failed to unmarshal: ") (d.json_unmarshal body) in
        let p = decode_protobuf_to_struct d body in
        let rest = decode_struct_default d t body in
        simp (has_new) (
          choose-FailsWell (is_json_content_type t) j
            (if is_protobuf_content_type t then p else rest) json
            (choose-FailsWell (is_protobuf_content_type t) p rest proto
              (choose-FailsWell (has_prefix (str "application/grpc") t) p b proto bare)))

  decode_input-FailsWell : IsPrepared d → (t body : Str) → FailsWell (decode_input d t body)
  unfolding decode_input
  decode_input-FailsWell (inl by_proto) t body =
      simp (by_proto) (decode_proto_input-FailsWell t body)
  decode_input-FailsWell (inr (has_new, has_codec)) t body =
      choose-FailsWell (d.use_proto_input && d.has_proto_input) (decode_proto_input d t body)
        (decode_struct_input d t body) (decode_proto_input-FailsWell t body)
        (decode_struct_input-FailsWell has_new has_codec t body)

  abbrev RefusesWell : Option GoError → Type 0
  RefusesWell none = Unit {0}
  RefusesWell (some e) = IsInvalid e

  oneof_checked-RefusesWell : (e : Option GoError) → RefusesWell (oneof_checked d e)
  unfolding oneof_checked rpc_error contains has_prefix new_error
  oneof_checked-RefusesWell none = tt
  oneof_checked-RefusesWell (some e) = λ r. refl

  struct_checked-RefusesWell : (i : I) (e : Option GoError) → RefusesWell (struct_checked d i e)
  unfolding struct_checked rpc_error new_error
  struct_checked-RefusesWell i none = oneof_checked-RefusesWell (d.validate_oneof i)
  struct_checked-RefusesWell i (some e) = λ r. refl

  validate_input-RefusesWell : (i : I) → RefusesWell (validate_input d i)
  unfolding validate_input
  validate_input-RefusesWell i =
      if_both (λ (e : Option GoError). RefusesWell e) (should_validate d)
        (struct_checked d i (d.validate_struct i)) none
        (struct_checked-RefusesWell i (d.validate_struct i)) tt

  checked-FailsWell : (i : I) (e : Option GoError) → RefusesWell e → FailsWell (checked d i e)
  unfolding checked
  checked-FailsWell i none well = tt
  checked-FailsWell i (some e) well = well

  validated-FailsWell : (o : Outcome I) → FailsWell o → FailsWell (validated d o)
  unfolding validated
  validated-FailsWell (failed e) well = well
  validated-FailsWell (done i) well =
      checked-FailsWell i (validate_input d i) (validate_input-RefusesWell i)

  process_input-FailsWell : IsPrepared d → (t body : Str) → FailsWell (process_input d t body)
  unfolding process_input
  process_input-FailsWell prepared t body =
      validated-FailsWell (decode_input d t body) (decode_input-FailsWell prepared t body)

-- Once a method is prepared, every failure to decode or to validate an input, whatever the content type and the
-- body, is reported as an invalid argument.
pub process_input-IsInvalid :
    {I Msg : Type 0} (d : Decoder I Msg) (t whole : Str) (e : GoError)
    → IsPrepared d
    → process_input d t whole ≡ failed e
    → IsInvalid e
process_input-IsInvalid d t whole e prepared fails =
    subst (λ o. FailsWell o) (fails) (process_input-FailsWell d prepared t whole)
