-- ===== src/Gateway/Frames/RoundTrip.antt =====
-- Reading back what was written.
use hyperway.Prelude.{
  ℕ, ◌≤◌, ◌≡◌, refl, Bool, true, List, [], ◌∷◌, ◌++◌, append_assoc, arith, length, length-append,
  take-append, drop-append,
}
use hyperway.Gateway.Frames.{
  Frame, ok, read_full, put_uint32, frame_read, header_read, read_payload, read_frame, write_frame,
  write_payload, written,
}
use hyperway.Gateway.Frames.Words.{uint32-put_uint32}

-- the bytes of a frame
abbrev pub frame_bytes : Frame → List ℕ
frame_bytes f = (f.flag ∷ put_uint32 (length f.payload)) ++ f.payload

-- a writer that keeps all bytes and never fails
abbrev pub append_writer : List ℕ → List ℕ → Bool × List ℕ
append_writer bytes out = (true, out ++ bytes)

-- Writing a frame of at most 2^31 - 1 bytes appends its flag, its length and its payload.
pub write_frame-append :
    (f : Frame) (out : List ℕ)
    → length f.payload ≤ 0x7FFFFFFF
    → write_frame append_writer f out ≡ (written, out ++ frame_bytes f)
unfolding write_frame put_uint32
write_frame-append f out h = by_payload f.flag f.payload h
  where
    by_payload :
        (flag : ℕ) (payload : List ℕ)
        → length payload ≤ 0x7FFFFFFF
        → write_frame append_writer (record { flag = flag; payload = payload }) out
          ≡ (written, out ++ frame_bytes (record { flag = flag; payload = payload }))
    by_payload flag [] h = refl
    by_payload flag (b ∷ bs) h =
        let head = flag ∷ put_uint32 (length (b ∷ bs)) in
        ground (arith, append_assoc out head (b ∷ bs))

-- A frame that is not too large is its header and then its payload.
pub write_frame-small :
    {W : Type 0} (write : List ℕ → W → Bool × W) (f : Frame) (w : W)
    → length f.payload ≤ 0x7FFFFFFF
    → write_frame write f w
      ≡ write_payload write f.payload (write (f.flag ∷ put_uint32 (length f.payload)) w)
unfolding write_frame
write_frame-small write f w h = ground arith

pub read_full-append :
    (a b : List ℕ) (broken : Bool)
    → read_full (length a) (record { rest = a ++ b; broken = broken })
      ≡ (ok a, record { rest = b; broken = broken })
unfolding read_full
read_full-append a b broken = ground (arith, length-append a b, take-append a b, drop-append a b)

-- what reading the payload behind a header gives
read_payload-append :
    (flag : ℕ) (payload rest : List ℕ) (broken : Bool)
    → read_payload flag (length payload) (record { rest = payload ++ rest; broken = broken }) ≡ (
      frame_read (record { flag = flag; payload = payload }),
      record { rest = rest; broken = broken },
    )
unfolding read_payload
read_payload-append flag [] rest broken = refl
read_payload-append flag (b ∷ bs) rest broken =
    ground (arith, read_full-append (b ∷ bs) rest broken)

-- A frame is read back from its bytes, and what follows it is left.
pub read_frame-frame_bytes :
    (f : Frame) (rest : List ℕ) (broken : Bool)
    → length f.payload ≤ 0x7FFFFFFF
    → read_frame (record { rest = frame_bytes f ++ rest; broken = broken })
      ≡ (frame_read f, record { rest = rest; broken = broken })
unfolding read_frame header_read put_uint32
read_frame-frame_bytes f rest broken h =
    let n = length f.payload in
    let header = f.flag ∷ put_uint32 n in
    rw (read_full-append header (f.payload ++ rest) broken, uint32-put_uint32 n (omega arith))
      (read_payload-append f.flag f.payload rest broken)
