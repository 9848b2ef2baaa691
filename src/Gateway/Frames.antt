-- ===== src/Gateway/Frames.antt =====
-- The frames of gateway/grpcweb_framing.go: a flag byte, the length of the payload in four bytes, the
-- payload. A byte is a number; a reader is what is left of a body, and how the body ends.
pub mod Words
pub mod RoundTrip
pub mod Requests
pub mod Total
use hyperway.Prelude.{
  ℕ, zero, suc, ◌+◌, ◌-◌, ◌*◌, ◌/◌, ◌%◌, ◌^◌, Bool, true, false, not, ◌||◌, Option, none, some,
  List, [], ◌∷◌, ◌++◌, ltb, leb, ◌==◌, length, take, drop, if◌then◌else◌,
}
use hyperway.Prelude.Str.{Str, str, contains}

abbrev pub flag_data : ℕ
flag_data = 0x00

abbrev pub flag_trailer : ℕ
flag_trailer = 0x80

abbrev pub frame_header_size : ℕ
frame_header_size = 5

pub data Mode : Type 0 where
  binary base64 : Mode

unfoldable pub detect_grpc_web_mode : Str → Mode
detect_grpc_web_mode content_type =
    if contains (str "application/grpc-web-text") content_type then base64 else binary

pub record Frame : Type 0 where
  pub flag : ℕ
  pub payload : List ℕ

abbrev pub is_trailer : Frame → Bool
is_trailer frame = frame.flag == flag_trailer

-- `broken`: the connection fails behind the last byte; otherwise the body ends there.
pub record Reader : Type 0 where
  pub rest : List ℕ
  pub broken : Bool

pub data ReadError : Type 0 where
  eof unexpected_eof failed : ReadError

pub data Result {ℓ} (A : Type ℓ) : Type ℓ where
  ok : A → Result A
  err : ReadError → Result A

-- io.ReadFull(r, make([]byte, n))
short_read : Reader → ReadError
short_read r = if r.broken then failed else (elim r.rest [ [] ↦ eof | b ∷ bs ↦ unexpected_eof ])

unfoldable pub read_full : ℕ → Reader → Result (List ℕ) × Reader
unfolding short_read
read_full n r =
    if leb n (length r.rest)
    then (ok (take n r.rest), record r { rest = drop n r.rest })
    else (err (short_read r), record r { rest = [] })

-- binary.BigEndian.PutUint32 and Uint32
unfoldable pub put_uint32 : ℕ → List ℕ
put_uint32 n = n / 2 ^ 24 % 256 ∷ n / 2 ^ 16 % 256 ∷ n / 2 ^ 8 % 256 ∷ n % 256 ∷ []

unfoldable pub uint32 : List ℕ → ℕ
uint32 (a ∷ b ∷ c ∷ d ∷ more) = ((a * 2 ^ 8 + b) * 2 ^ 8 + c) * 2 ^ 8 + d
uint32 _ = 0

-- What `writeFrame` returns: nil, the error of a large payload, or that of a write.
pub data WriteResult : Type 0 where
  written too_large write_failed : WriteResult

-- `write` is the Write of the writer below: whether it worked, and the writer after it.
module _ {W : Type 0} (write : List ℕ → W → Bool × W) where
  abbrev pub payload_written : Bool × W → WriteResult × W
  payload_written (true, w) = (written, w)
  payload_written (false, w) = (write_failed, w)

  abbrev pub write_payload : List ℕ → Bool × W → WriteResult × W
  write_payload payload (false, w) = (write_failed, w)
  write_payload [] (true, w) = (written, w)
  write_payload (b ∷ bs) (true, w) = payload_written (write (b ∷ bs) w)

  unfoldable pub write_frame : Frame → W → WriteResult × W
  write_frame frame w =
      if ltb 0x7FFFFFFF (length frame.payload)
      then (too_large, w)
      else write_payload frame.payload (write (frame.flag ∷ put_uint32 (length frame.payload)) w)

  unfoldable pub write_data_frame : List ℕ → W → WriteResult × W
  write_data_frame data' w = write_frame (record { flag = flag_data; payload = data' }) w

  unfoldable pub write_trailer_frame : List ℕ → W → WriteResult × W
  write_trailer_frame trailers w =
      write_frame (record { flag = flag_trailer; payload = trailers }) w

-- What `readFrame` returns: a frame; io.EOF; or an error that wraps another.
pub data FrameResult : Type 0 where
  frame_read : Frame → FrameResult
  at_end : FrameResult
  bad_header bad_payload : ReadError → FrameResult

unfoldable pub payload_read : ℕ → Result (List ℕ) × Reader → FrameResult × Reader
payload_read flag (ok payload, r) = (frame_read (record { flag = flag; payload = payload }), r)
payload_read flag (err e, r) = (bad_payload e, r)

-- the frame behind a header: no read for an empty payload
unfoldable pub read_payload : ℕ → ℕ → Reader → FrameResult × Reader
unfolding payload_read
read_payload flag n r =
    if ltb 0 n
    then payload_read flag (read_full n r)
    else (frame_read (record { flag = flag; payload = [] }), r)

unfoldable pub header_read : Result (List ℕ) × Reader → FrameResult × Reader
unfolding read_payload
header_read (ok (flag ∷ size), r) = read_payload flag (uint32 size) r
header_read (ok [], r) = (bad_header failed, r)
header_read (err eof, r) = (at_end, r)
header_read (err e, r) = (bad_header e, r)

unfoldable pub read_frame : Reader → FrameResult × Reader
unfolding header_read
read_frame r = header_read (read_full frame_header_size r)

-- `readRequestMessage`: the payloads of all frames, up to the end, or what failed. `stuck` is no Go value: it stands
-- for a loop that ran out of fuel.
pub data Request : Type 0 where
  request : List ℕ → Request
  bad_frame : FrameResult → Request
  unexpected_trailer stuck : Request

abbrev frames_step : (List ℕ → Reader → Request) → List ℕ → FrameResult × Reader → Request
frames_step next acc (frame_read frame, r) =
    if is_trailer frame then unexpected_trailer else next (acc ++ frame.payload) r
frames_step next acc (at_end, r) = request acc
frames_step next acc (bad_header e, r) = bad_frame (bad_header e)
frames_step next acc (bad_payload e, r) = bad_frame (bad_payload e)

unfoldable pub read_frames : ℕ → List ℕ → Reader → Request
read_frames zero acc r = stuck
read_frames (suc fuel) acc r = frames_step (read_frames fuel) acc (read_frame r)

-- A frame takes five bytes at least, so a round for each byte and one more are enough.
unfoldable pub read_request_message : Reader → Request
unfolding read_frames
read_request_message r = read_frames (suc (length r.rest)) [] r
