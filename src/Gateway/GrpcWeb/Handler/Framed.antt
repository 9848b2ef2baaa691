-- ===== src/Gateway/GrpcWeb/Handler/Framed.antt =====
-- What goes over a binary connection that takes all bytes: the frames of a response, described apart
-- from the writes.
use hyperway.Prelude.{
  ℕ, ◌≡◌, ◌≤◌, refl, sym, ap, ◌∙◌, Bool, true, Bool-cases, inl, inr, ◌&&◌, Option, none, some, List,
  [], ◌∷◌, ◌++◌, append_assoc, append-nil, ltb, ◌==◌, length, if◌then◌else◌,
}
use hyperway.Prelude.Str.{Str, str}
use hyperway.Http.{Header, Writer, get, write_header, write}
use hyperway.Gateway.Frames.{
  binary, Frame, flag_data, flag_trailer, put_uint32, payload_written, write_payload, written,
  write_frame, write_data_frame, write_trailer_frame,
}
use hyperway.Gateway.Frames.RoundTrip.{frame_bytes, write_frame-small}
use hyperway.Gateway.Trailers.{format_trailer_frame}
use hyperway.Gateway.GrpcWeb.{
  grpc_unimplemented, grpc_unknown, status_number, Recorder, error_trailers, prepare_trailers,
}
use hyperway.Gateway.GrpcWeb.Handler.{
  Codec, Outside, FrameWriter, held, frame_write, write_error_status, write_response,
  write_response_with_error, handle_response, json_error, is_error_status, or_json_error, success,
  flushed, trailers_after,
}
use hyperway.Prelude.Str.Numbers.{atoi}

-- the bytes of the body so far
abbrev pub joined : List Str → Str
joined [] = []
joined (chunk ∷ more) = chunk ++ joined more

pub joined-append : (a b : List Str) → joined (a ++ b) ≡ joined a ++ joined b
joined-append [] b = refl
joined-append (chunk ∷ a) b =
    rw (joined-append a b) (sym (append_assoc chunk (joined a) (joined b)))

abbrev data_frame : Str → Frame
data_frame payload = record { flag = flag_data; payload = payload }

abbrev trailer_frame : Header → Frame
trailer_frame trailers = record { flag = flag_trailer; payload = format_trailer_frame trailers }

-- the two frames of a response: the payload of the data frame and the trailers
abbrev pub Reply : Type 0
Reply = Str × Header

abbrev pub reply_bytes : Reply → Str
reply_bytes (payload, trailers) =
    frame_bytes (data_frame payload) ++ frame_bytes (trailer_frame trailers)

abbrev pub IsSmall : Reply → Type 0
IsSmall (payload, trailers) =
    (length payload ≤ 0x7FFFFFFF) × (length (format_trailer_frame trailers) ≤ 0x7FFFFFFF)

rest_written : Str → Writer Str → Writer Str
rest_written [] w = w
rest_written (b ∷ bs) w = write (b ∷ bs) w

-- the writes of one frame: none for an empty payload
frame_written : ℕ → Str → Writer Str → Writer Str
unfolding rest_written
frame_written flag payload w = rest_written payload (write (flag ∷ put_uint32 (length payload)) w)

rest_written-joined :
    (payload : Str) (w : Writer Str)
    → joined (rest_written payload w).body ≡ joined w.body ++ payload
unfolding rest_written write
rest_written-joined [] w = sym (append-nil (joined w.body))
rest_written-joined (b ∷ bs) w =
    joined-append w.body ((b ∷ bs) ∷ []) ∙ ap (λ s. joined w.body ++ s) (append-nil (b ∷ bs))

frame_written-joined :
    (flag : ℕ) (payload : Str) (w : Writer Str)
    → joined (frame_written flag payload w).body
      ≡ joined w.body ++ frame_bytes (record { flag = flag; payload = payload })
unfolding frame_written write put_uint32
frame_written-joined flag payload w =
    let header = flag ∷ put_uint32 (length payload) in
    rest_written-joined payload (write header w)
    ∙ ap (λ s. s ++ payload) (joined-append w.body (header ∷ []))
    ∙ append_assoc (joined w.body) header payload

-- The reply to what the service did, as frames: an error has an empty data frame.
is_error_header : Recorder → Bool
is_error_header r = is_error_status (get (str "grpc-status") r.header)

reply_of : Recorder → Option (ℕ × Str) → Reply
reply_of r none = (r.body, prepare_trailers r)
reply_of r (some (code, msg)) = ([], error_trailers code msg)

unfoldable pub reply : Outside → Codec → Recorder → Reply
unfolding is_error_header reply_of
reply o codec r =
    if r.status == 404
    then ([], error_trailers grpc_unimplemented (str "Method not found"))
    else if is_error_header r
    then (
      [],
      error_trailers (status_number grpc_unknown (atoi (get (str "grpc-status") r.header)))
          (get (str "grpc-message") r.header),
    )
    else reply_of r (if codec.is_json && ltb 0 (length r.body) then json_error o r.body else none)

module _ (o : Outside) (takes_all : (w : Writer Str) → o.takes w ≡ true) where
  frame_write-takes :
      (b : ℕ) (bytes : Str) (fw : FrameWriter)
      → frame_write o binary (b ∷ bytes) fw
        ≡ (true, record { pending = []; conn = write (b ∷ bytes) fw.conn })
  unfolding frame_write held
  frame_write-takes b bytes fw = rw (takes_all fw.conn) refl

  -- one frame over an open connection
  write_frame-takes :
      (flag : ℕ) (payload : Str) (fw : FrameWriter)
      → length payload ≤ 0x7FFFFFFF
      → write_frame (frame_write o binary) (record { flag = flag; payload = payload }) fw
        ≡ (written, record { pending = []; conn = frame_written flag payload fw.conn })
  unfolding frame_written put_uint32
  write_frame-takes flag payload fw h =
      let header = flag ∷ put_uint32 (length payload) in
      write_frame-small (frame_write o binary) (record { flag = flag; payload = payload }) fw h
      ∙ ap (write_payload (frame_write o binary) payload)
          (frame_write-takes flag (put_uint32 (length payload)) fw)
      ∙ by_payload payload (record { pending = []; conn = write header fw.conn })
    where
      by_payload :
          (payload' : Str) (half : FrameWriter)
          → write_payload (frame_write o binary) payload' (true, record half { pending = [] })
            ≡ (written, record { pending = []; conn = rest_written payload' half.conn })
      by_payload [] half = refl
      by_payload (b ∷ bs) half =
          ap (payload_written (frame_write o binary))
            (frame_write-takes b bs (record half { pending = [] }))

  frames_written : Reply → Writer Str → Writer Str
  unfolding frame_written
  frames_written (payload, trailers) w =
      frame_written flag_trailer (format_trailer_frame trailers) (frame_written flag_data payload w)

  frames_written-joined :
      (rep : Reply) (w : Writer Str)
      → joined (frames_written rep w).body ≡ joined w.body ++ reply_bytes rep
  unfolding frames_written
  frames_written-joined (payload, trailers) w =
      let text = format_trailer_frame trailers in
      frame_written-joined flag_trailer text (frame_written flag_data payload w)
      ∙ ap (λ s. s ++ frame_bytes (trailer_frame trailers))
          (frame_written-joined flag_data payload w)
      ∙ append_assoc (joined w.body) (frame_bytes (data_frame payload))
          (frame_bytes (trailer_frame trailers))

  error_status-frames :
      (code : ℕ) (msg : Str) (fw : FrameWriter)
      → IsSmall ([], error_trailers code msg)
      → joined (write_error_status o binary code msg fw).conn.body
        ≡ joined fw.conn.body ++ reply_bytes ([], error_trailers code msg)
  unfolding write_error_status write_data_frame write_trailer_frame frames_written
  error_status-frames code msg fw (small, small') =
      let trailers = error_trailers code msg in
      let text = format_trailer_frame trailers in
      ap (λ p. joined (write_frame (frame_write o binary) (trailer_frame trailers) p.1).1.conn.body)
        (write_frame-takes flag_data [] fw small)
      ∙ ap (λ p. joined p.1.conn.body)
          (write_frame-takes flag_trailer text
            (record { pending = []; conn = frame_written flag_data [] fw.conn }) small')
      ∙ frames_written-joined ([], trailers) fw.conn

  response-frames :
      (r : Recorder) (fw : FrameWriter)
      → IsSmall (r.body, prepare_trailers r)
      → write_response o binary r fw ≡ (
        written,
        record { pending = []; conn = frames_written (r.body, prepare_trailers r) fw.conn },
      )
  unfolding write_response trailers_after write_data_frame write_trailer_frame frames_written
  response-frames r fw (small, small') =
      ap (trailers_after o binary r) (write_frame-takes flag_data r.body fw small)
      ∙ write_frame-takes flag_trailer (format_trailer_frame (prepare_trailers r))
          (record { pending = []; conn = frame_written flag_data r.body fw.conn }) small'

  success-frames :
      (r : Recorder) (fw : FrameWriter)
      → IsSmall (r.body, prepare_trailers r)
      → joined (success o binary r fw).conn.body
        ≡ joined fw.conn.body ++ reply_bytes (r.body, prepare_trailers r)
  unfolding success flushed write_header
  success-frames r fw small =
      let started : FrameWriter = record fw { conn = write_header 200 fw.conn } in
      ap (λ p. joined (flushed o p).conn.body) (response-frames r started small)
      ∙ frames_written-joined (r.body, prepare_trailers r) started.conn

  -- a response with no error in its header
  body-frames :
      (error : Option (ℕ × Str)) (r : Recorder) (fw : FrameWriter)
      → IsSmall (reply_of r error)
      → joined (or_json_error o binary r error fw).conn.body
        ≡ joined fw.conn.body ++ reply_bytes (reply_of r error)
  unfolding or_json_error reply_of
  body-frames none r fw small = success-frames r fw small
  body-frames (some (code, msg)) r fw small = error_status-frames code msg fw small

  -- On a binary connection that takes all bytes, what the handler writes for the answer of a service
  -- is the reply's data frame and then its trailer frame, and nothing else, when both fit a frame:
  -- exactly one of each on every branch, errors included.
  pub handle_response-reply :
      (is_json : Bool) (r : Recorder) (fw : FrameWriter)
      → let codec : Codec = record { mode = binary; is_json = is_json } in
        IsSmall (reply o codec r)
        → joined (handle_response o codec r fw).conn.body
          ≡ joined fw.conn.body ++ reply_bytes (reply o codec r)
  unfolding handle_response reply is_error_header reply_of write_response_with_error
  handle_response-reply is_json r fw small = elim (Bool-cases (r.status == 404)) [
    | inl missing ↦
        rw missing
          (error_status-frames grpc_unimplemented (str "Method not found") fw (rw missing at small))
    | inr found ↦ elim (Bool-cases (is_error_header r)) [
      | inl failed ↦
          rw (found, failed)
            (error_status-frames
              (status_number grpc_unknown (atoi (get (str "grpc-status") r.header)))
              (get (str "grpc-message") r.header) fw (rw (found, failed) at small))
      | inr fine ↦ elim (Bool-cases (is_json && ltb 0 (length r.body))) [
        | inl read ↦
            rw (found, fine, read)
              (body-frames (json_error o r.body) r fw (rw (found, fine, read) at small))
        | inr not_read ↦
            rw (found, fine, not_read) (success-frames r fw (rw (found, fine, not_read) at small))
      ]
    ]
  ]
