-- ===== src/Rpc/Compression.antt =====
-- rpc/compression.go: the registry of compressors, the gzip compressor over the gzip library, and the size
-- from which a response is compressed. The pools of buffers are not modelled.
pub mod Lossless
use hyperway.Prelude.{ℕ, Bool, Option, List, [], ◌∷◌, ◌++◌, leb, length, if◌then◌else◌}
use hyperway.Prelude.Str.{Str, str, lookup, insert}
use hyperway.Rpc.Errors.{GoError, other, text, Outcome, done, failed}

pub record Compressor : Type 0 where
  pub name : Str
  pub compress : Str → Outcome Str
  pub decompress : Str → Outcome Str

-- the compressors by their names
abbrev pub Registry : Type 0
Registry = List (Str × Compressor)

unfoldable pub register_compressor : Compressor → Registry → Registry
register_compressor c registry = insert c.name c registry

unfoldable pub get_compressor : Str → Registry → Option Compressor
get_compressor name registry = lookup name registry

-- What the gzip library does: writing and then closing, and resetting and then reading; each may fail.
pub record GzipLibrary : Type 0 where
  pub write : Str → Outcome (Outcome Str)
  pub reset : Str → Outcome (Outcome Str)

-- an error of either stage, with what is said of it
unfoldable pub staged : Str → Str → Outcome (Outcome Str) → Outcome Str
staged first second (failed e) = failed (other (first ++ text e))
staged first second (done (failed e)) = failed (other (second ++ text e))
staged first second (done (done data')) = done data'

module _ (gzip : GzipLibrary) where
  unfoldable pub compress : Str → Outcome Str
  unfolding staged
  compress [] = done []
  compress (c ∷ s) =
      staged (str "gzip compress write: ") (str "gzip compress close: ") (gzip.write (c ∷ s))

  unfoldable pub decompress : Str → Outcome Str
  unfolding staged
  decompress [] = done []
  decompress (c ∷ s) =
      staged (str "gzip decompress reset: ") (str "gzip decompress read: ") (gzip.reset (c ∷ s))

  -- the value of type *GzipCompressor
  unfoldable pub gzip_compressor : Compressor
  unfolding compress decompress
  gzip_compressor = record { name = str "gzip"; compress = compress; decompress = decompress }

  -- the registry after `init`
  unfoldable pub default_registry : Registry
  unfolding gzip_compressor register_compressor
  default_registry = register_compressor gzip_compressor []

abbrev pub compression_threshold : ℕ
compression_threshold = 1024

unfoldable pub should_compress : Str → Bool
should_compress data' = leb compression_threshold (length data')
