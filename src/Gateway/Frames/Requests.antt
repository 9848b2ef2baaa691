-- ===== src/Gateway/Frames/Requests.antt =====
-- The message of a request, over any body.
use hyperway.Prelude.{
  ℕ, suc, ◌+◌, ◌-◌, ◌≤◌, ◌≡◌, refl, sym, ap, ◌∙◌, Bool, false, List, [], ◌∷◌, ◌++◌, append_assoc,
  append-nil, arith, length, length-append, All, ◌==◌,
}
use hyperway.Gateway.Frames.{
  Frame, Reader, read_full, put_uint32, header_read, read_frame, request, unexpected_trailer,
  read_frames, read_request_message, frames_step, flag_trailer, short_read,
}
use hyperway.Gateway.Frames.RoundTrip.{frame_bytes, read_frame-frame_bytes}

-- a frame that a client may send: its flag is not that of a trailer, and its length fits
abbrev pub IsData : Frame → Type 0
IsData f = (f.flag == flag_trailer ≡ false) × (length f.payload ≤ 0x7FFFFFFF)

abbrev pub all_bytes : List Frame → List ℕ
all_bytes [] = []
all_bytes (f ∷ fs) = frame_bytes f ++ all_bytes fs

abbrev pub payloads : List Frame → List ℕ
payloads [] = []
payloads (f ∷ fs) = f.payload ++ payloads fs

length-frame_bytes : (f : Frame) → length (frame_bytes f) ≡ 5 + length f.payload
unfolding put_uint32
length-frame_bytes f = length-append (f.flag ∷ put_uint32 (length f.payload)) f.payload

-- a round for each frame, and `fuel` more
abbrev rounds : List Frame → ℕ → ℕ
rounds [] fuel = fuel
rounds (f ∷ fs) fuel = suc (rounds fs fuel)

rounds-split :
    (fs : List Frame) (n : ℕ) → length (all_bytes fs) ≤ n → (k : ℕ) × (rounds fs (suc k) ≡ suc n)
rounds-split [] n h = (n, refl)
rounds-split (f ∷ fs) n h =
    let whole = length-append (frame_bytes f) (all_bytes fs) in
    let (k, rest) = rounds-split fs (n - 1) (omega (arith, whole, length-frame_bytes f)) in
    (k, omega (arith, rest, whole, length-frame_bytes f))

-- the loop over data frames: it goes on with what follows them
read_frames-all_bytes :
    (fs : List Frame) (fuel : ℕ) (acc rest : List ℕ) (broken : Bool)
    → All IsData fs
    → read_frames (rounds fs fuel) acc (record { rest = all_bytes fs ++ rest; broken = broken })
      ≡ read_frames fuel (acc ++ payloads fs) (record { rest = rest; broken = broken })
unfolding read_frames
read_frames-all_bytes [] fuel acc rest broken _ =
    ap (λ a. read_frames fuel a (record { rest = rest; broken = broken })) (sym (append-nil acc))
read_frames-all_bytes (f ∷ fs) fuel acc rest broken ((not_trailer, small), more) =
    rw
      (
        append_assoc (frame_bytes f) (all_bytes fs) rest,
        read_frame-frame_bytes f (all_bytes fs ++ rest) broken small,
        not_trailer,
        sym (append_assoc acc f.payload (payloads fs)),
      )
      (read_frames-all_bytes fs fuel (acc ++ f.payload) rest broken more)

-- the loop with enough fuel
by_rounds :
    (fs : List Frame) (rest : List ℕ) (broken : Bool)
    → All IsData fs
    → (k : ℕ) × (read_request_message (record { rest = all_bytes fs ++ rest; broken = broken })
        ≡ read_frames (suc k) (payloads fs) (record { rest = rest; broken = broken }))
unfolding read_request_message
by_rounds fs rest broken h =
    let n = length (all_bytes fs ++ rest) in
    let (k, enough) = rounds-split fs n (omega (arith, length-append (all_bytes fs) rest)) in
    let body : Reader = record { rest = all_bytes fs ++ rest; broken = broken } in
    (
      k,
      ap (λ m. read_frames m [] body) (sym enough)
          ∙ read_frames-all_bytes fs (suc k) [] rest broken h,
    )

-- The message of a body of data frames, of at most 2^31 - 1 bytes each, is their payloads in order: a
-- message that a client cuts into frames arrives whole.
pub read_request_message-all_bytes :
    (fs : List Frame)
    → All IsData fs
    → read_request_message (record { rest = all_bytes fs; broken = false }) ≡ request (payloads fs)
unfolding read_frames read_frame read_full header_read short_read
read_request_message-all_bytes fs h =
    let (k, whole) = by_rounds fs [] false h in
    ap (λ b. read_request_message (record { rest = b; broken = false }))
      (sym (append-nil (all_bytes fs)))
    ∙ whole

-- A trailer frame behind data frames refuses the request, whatever follows it.
pub read_request_message-trailer :
    (fs : List Frame) (payload rest : List ℕ) (broken : Bool)
    → All IsData fs
    → length payload ≤ 0x7FFFFFFF
    → read_request_message (record {
      rest =
          all_bytes fs ++ (frame_bytes (record { flag = flag_trailer; payload = payload }) ++ rest);
      broken = broken;
    })
      ≡ unexpected_trailer
unfolding read_frames
read_request_message-trailer fs payload rest broken h small =
    let trailer : Frame = record { flag = flag_trailer; payload = payload } in
    let (k, whole) = by_rounds fs (frame_bytes trailer ++ rest) broken h in
    whole
    ∙ ap (frames_step (read_frames k) (payloads fs))
        (read_frame-frame_bytes trailer rest broken small)
