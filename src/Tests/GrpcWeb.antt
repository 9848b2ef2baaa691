-- ===== src/Tests/GrpcWeb.antt =====
-- gRPC-Web: frames of two bytes, a service that echoes, and a connection that takes everything.
use hyperway.Prelude.{All, ◌≡◌, ◌≢◌, refl, true, false, none, [], ◌∷◌, ◌++◌, arith}
use hyperway.Prelude.Str.{str, str_eq, insert, lookup, to_lower, trim_space}
use hyperway.Prelude.Str.Numbers.{itoa, atoi}
use hyperway.Http.{Header, fresh, get, set, canonical}
use hyperway.Gateway.Frames.{stuck, Reader, Frame, binary, request, read_request_message}
use hyperway.Gateway.Frames.Requests.{all_bytes, read_request_message-all_bytes}
use hyperway.Gateway.Frames.Total.{read_request_message-ends}
use hyperway.Gateway.Trailers.{format_trailer_frame, parse_trailer_frame}
use hyperway.Gateway.Trailers.RoundTrip.{IsMap, IsTrailer, parse_trailer_frame-format_trailer_frame}
use hyperway.Gateway.GrpcWeb.{
  prepare_trailers, extract_grpc_status, status_number, copy_headers_to_trailers, copy_grpc,
  copy_custom, Recorder, writes,
}
use hyperway.Gateway.GrpcWeb.Handler.{
  is_error_status, HttpRequest, Codec, Outside, FrameWriter, handle_response,
}
use hyperway.Gateway.GrpcWeb.Handler.Framed.{
  joined, reply, reply_bytes, IsSmall, handle_response-reply,
}

abbrev outside : Outside
outside = record {
  serve = λ r. writes r.body.rest ∷ [];
  url_error = λ url. none;
  error_json = λ body. none;
  conn_error = str "reset";
  takes = λ w. true;
  decoder = λ r. r;
  encode = λ held bytes. (bytes, held);
  encode_close = λ held. [];
}

abbrev hi : Frame
hi = record { flag = 0; payload = str "hi" }

abbrev no_bytes : FrameWriter
no_bytes = record { pending = []; conn = fresh }

abbrev answered : Recorder
answered = record { header = []; body = str "hi"; status = 200 }

read_request_message-all_bytes_example :
    read_request_message (record { rest = all_bytes (hi ∷ hi ∷ []); broken = false })
    ≡ request (str "hihi")
read_request_message-all_bytes_example =
    read_request_message-all_bytes (hi ∷ hi ∷ []) ((refl, omega arith), ((refl, omega arith), tt))

-- a header that promises nine bytes, and a connection that breaks after two of them
abbrev cut_body : Reader
cut_body = record { rest = 0 ∷ 0 ∷ 0 ∷ 0 ∷ 9 ∷ str "hi"; broken = true }

read_request_message-ends_example : read_request_message cut_body ≢ stuck
read_request_message-ends_example = read_request_message-ends cut_body

abbrev trailers : Header
trailers = (str "Grpc-Status", str "0" ∷ []) ∷ (str "X-Warn", str "a b" ∷ str "c" ∷ []) ∷ []

trailers-IsMap : IsMap trailers
unfolding canonical str_eq
trailers-IsMap = (refl, (λ e. cc e), (refl, tt), (refl, (λ e. cc e), tt, tt))

trailers-IsTrailer : All IsTrailer trailers
unfolding canonical to_lower trim_space
trailers-IsTrailer = (
  (refl, omega arith, omega arith, refl, ((omega arith, refl), tt)),
  ((refl, omega arith, omega arith, refl, ((omega arith, refl), ((omega arith, refl), tt))), tt),
)

parse_trailer_frame-format_trailer_frame_example :
    parse_trailer_frame (format_trailer_frame trailers) ≡ trailers
parse_trailer_frame-format_trailer_frame_example =
    parse_trailer_frame-format_trailer_frame trailers trailers-IsMap trailers-IsTrailer

small : IsSmall (reply outside (record { mode = binary; is_json = false }) answered)
unfolding reply format_trailer_frame prepare_trailers extract_grpc_status set insert str_eq
    canonical to_lower itoa get lookup status_number copy_headers_to_trailers copy_grpc copy_custom
    is_error_status atoi
small = (omega arith, omega arith)

handle_response-reply_example :
    let codec : Codec = record { mode = binary; is_json = false } in
    joined (handle_response outside codec answered no_bytes).conn.body
    ≡ joined no_bytes.conn.body ++ reply_bytes (reply outside codec answered)
handle_response-reply_example =
    handle_response-reply outside (λ w. refl) false answered no_bytes small

abbrev forged : HttpRequest
forged = record {
  method = str "POST";
  url = str "/Echo/Say";
  header =
      (str "X-Grpc-Web-Fake", str "yes" ∷ [])
      ∷ (str "Content-Type", str "application/grpc-web" ∷ [])
      ∷ [];
  body = record { rest = []; broken = false };
}
