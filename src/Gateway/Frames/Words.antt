-- ===== src/Gateway/Frames/Words.antt =====
-- The four bytes of a length.
use hyperway.Prelude.{ℕ, ◌^◌, ◌<◌, ◌≡◌, arith, All}
use hyperway.Gateway.Frames.{put_uint32, uint32}

-- A uint32 is read back from its four bytes.
pub uint32-put_uint32 : (n : ℕ) → n < 2 ^ 32 → uint32 (put_uint32 n) ≡ n
unfolding uint32 put_uint32
uint32-put_uint32 n h = omega arith

pub put_uint32_bytes : (n : ℕ) → All (λ b. b < 256) (put_uint32 n)
unfolding put_uint32
put_uint32_bytes n = omega arith
