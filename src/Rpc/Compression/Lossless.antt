-- ===== src/Rpc/Compression/Lossless.antt =====
-- What is compressed is decompressed to what it was.
use mathlib.Core.Path.{subst}
use hyperway.Prelude.{◌≡◌, ◌≢◌, refl, some, [], ◌∷◌}
use hyperway.Prelude.Str.{Str, str, str_eq, lookup, insert}
use hyperway.Rpc.Errors.{Outcome, done, failed}
use hyperway.Rpc.Compression.{
  Compressor, register_compressor, get_compressor, GzipLibrary, staged, compress, decompress,
  gzip_compressor, default_registry,
}

abbrev pub IsLossless : Compressor → Type 0
IsLossless c = (a b : Str) → c.compress a ≡ done b → c.decompress b ≡ done a

-- What gzip writes is not empty, and is read back.
abbrev pub ReadsBack : GzipLibrary → Type 0
ReadsBack gzip =
    (a b : Str) → gzip.write a ≡ done (done b) → (b ≢ []) × (gzip.reset b ≡ done (done a))

staged-done :
    (first second : Str) (o : Outcome (Outcome Str)) (b : Str)
    → staged first second o ≡ done b
    → o ≡ done (done b)
unfolding staged
staged-done first second (failed e) b h = cc
staged-done first second (done (failed e)) b h = cc
staged-done first second (done (done a)) b h = cc

module _ (gzip : GzipLibrary) (law : ReadsBack gzip) where
  decompress-staged :
      (a b : Str) → b ≢ [] → gzip.reset b ≡ done (done a) → decompress gzip b ≡ done a
  unfolding decompress staged
  decompress-staged a [] full reads = elim (full refl) [ ]
  decompress-staged a (c ∷ b) full reads = rw reads refl

  decompress-compress : (a b : Str) → compress gzip a ≡ done b → decompress gzip b ≡ done a
  unfolding compress decompress
  decompress-compress [] [] h = refl
  decompress-compress [] (c ∷ b) h = cc
  decompress-compress (c ∷ a) b h =
      let (full, reads) = law (c ∷ a) b (
        staged-done (str "gzip compress write: ") (str "gzip compress close: ") (gzip.write (c ∷ a))
          b h) in
      decompress-staged (c ∷ a) b full reads

  -- The registered gzip compressor gives back what it has compressed, the empty text included, if the gzip library
  -- writes no empty text and reads back what it has written.
  pub get_compressor-IsLossless :
      (c : Compressor) → get_compressor (str "gzip") (default_registry gzip) ≡ some c → IsLossless c
  unfolding get_compressor default_registry register_compressor gzip_compressor lookup insert str_eq
  get_compressor-IsLossless c found =
      let same : gzip_compressor gzip ≡ c = cc found in
      subst (λ x. IsLossless x) (same) decompress-compress
