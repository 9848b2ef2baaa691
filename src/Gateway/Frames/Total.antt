-- ===== src/Gateway/Frames/Total.antt =====
-- The loop over the frames of a request has enough rounds for any body.
use hyperway.Prelude.{
  ℕ, zero, suc, ◌<◌, ◌≢◌, Bool-cases, inl, inr, List, [], ◌∷◌, ◌++◌, arith, length, take, drop,
  length-drop, leb, ltb,
}
use hyperway.Gateway.Frames.{
  Reader, ReadError, eof, unexpected_eof, failed, ok, err, read_full, uint32, FrameResult,
  frame_read, at_end, bad_header, bad_payload, is_trailer, read_payload, payload_read, header_read,
  read_frame, Request, stuck, frames_step, read_frames, read_request_message,
}

-- after a frame, less than `n` bytes are left
abbrev Less : ℕ → FrameResult × Reader → Type 0
Less n (frame_read f, r) = length r.rest < n
Less n (_, r) = Unit

payload-Less :
    (n flag k : ℕ) (r : Reader) → length r.rest < n → Less n (payload_read flag (read_full k r))
unfolding payload_read read_full
payload-Less n flag k r h = elim (Bool-cases (leb k (length r.rest))) [
  | inl enough ↦ rw enough (omega (arith, h, length-drop k r.rest))
  | inr short ↦ rw short tt
]

header-Less :
    (n : ℕ) (bytes : List ℕ) (r : Reader) → length r.rest < n → Less n (header_read (ok bytes, r))
unfolding header_read read_payload
header-Less n [] r h = tt
header-Less n (flag ∷ size) r h = elim (Bool-cases (ltb 0 (uint32 size))) [
  | inl some_bytes ↦ rw some_bytes (payload-Less n flag (uint32 size) r h)
  | inr no_bytes ↦ rw no_bytes h
]

error-Less : (n : ℕ) (e : ReadError) (r : Reader) → Less n (header_read (err e, r))
unfolding header_read
error-Less n eof r = tt
error-Less n unexpected_eof r = tt
error-Less n failed r = tt

read_frame-Less : (r : Reader) → Less (length r.rest) (read_frame r)
unfolding read_frame read_full
read_frame-Less r = elim (Bool-cases (leb 5 (length r.rest))) [
  | inl enough ↦ rw enough (
      header-Less (length r.rest) (take 5 r.rest) (record r { rest = drop 5 r.rest })
        (ground (arith, length-drop 5 r.rest)))
  | inr short ↦ rw short (error-Less (length r.rest) _ _)
]

step-ends :
    (next : List ℕ → Reader → Request) (acc : List ℕ) (n : ℕ) (p : FrameResult × Reader)
    → ((more : List ℕ) (r : Reader) → length r.rest < n → next more r ≢ stuck)
    → Less n p
    → frames_step next acc p ≢ stuck
step-ends next acc n (frame_read f, r) ends h = elim (Bool-cases (is_trailer f)) [
  | inl trailer ↦ rw trailer (λ e. cc)
  | inr data' ↦ rw data' (ends (acc ++ f.payload) r h)
]
step-ends next acc n (at_end, r) ends h = λ e. cc
step-ends next acc n (bad_header x, r) ends h = λ e. cc
step-ends next acc n (bad_payload x, r) ends h = λ e. cc

read_frames-ends :
    (fuel : ℕ) (acc : List ℕ) (r : Reader) → length r.rest < fuel → read_frames fuel acc r ≢ stuck
unfolding read_frames
read_frames-ends zero acc r h = ground (arith, h)
read_frames-ends (suc fuel) acc r h =
    step-ends (read_frames fuel) acc (length r.rest) (read_frame r)
      (λ more r' less. read_frames-ends fuel more r' (omega (arith, less, h))) (read_frame-Less r)

-- The loop over the frames of a request ends on every body, cut or broken anywhere: it gives a message
-- or an error.
pub read_request_message-ends : (r : Reader) → read_request_message r ≢ stuck
unfolding read_request_message
read_request_message-ends r = read_frames-ends (suc (length r.rest)) [] r (omega arith)
