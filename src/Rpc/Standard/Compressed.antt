-- ===== src/Rpc/Standard/Compressed.antt =====
-- What a client reads of a response that may be compressed.
use hyperway.Prelude.{
  ◌≡◌, ◌≤◌, refl, Bool, ◌&&◌, Bool-cases, inl, inr, some, [], length, ltb, ltb→lt, arith,
  if◌then◌else◌, if_both,
}
use hyperway.Prelude.Str.{Str, str, str_eq}
use hyperway.Http.{Header, canonical, get, set_header}
use hyperway.Http.Laws.{Has, set-Has_other, get-set_self}
use hyperway.Rpc.Errors.{Outcome, done, failed}
use hyperway.Rpc.Protocol.{Out}
use hyperway.Rpc.Compression.{Compressor, Registry, get_compressor, should_compress}
use hyperway.Rpc.Compression.Lossless.{IsLossless}
use hyperway.Rpc.Standard.{smaller, with_compressor, maybe_compress}

-- what a client that knows the compressor reads of a body, by the header Content-Encoding
abbrev pub client_reads : Compressor → Header → Str → Outcome Str
client_reads c h chunk =
    if str_eq (get (str "Content-Encoding") h) (str "gzip") then c.decompress chunk else done chunk

-- The data can be read back, is not longer than it was, and only the header has changed, but not its content type.
pub record IsReadable (c : Compressor) (data' : Str) (w : Out) (x : Str × Out) : Type 0 where
  pub reads : client_reads c x.1.header x.0 ≡ done data'
  pub short : length x.0 ≤ length data'
  pub head : x.1.head ≡ w.head
  pub body : x.1.body ≡ w.body
  pub typed :
      (v : Str) → Has (str "Content-Type") v w.header → Has (str "Content-Type") v x.1.header

module _ (c : Compressor) (lossless : IsLossless c) where
  plain-IsReadable :
      (data' : Str) (w : Out)
      → get (str "Content-Encoding") w.header ≡ []
      → IsReadable c data' w (data', w)
  unfolding str_eq
  plain-IsReadable data' w plain = record {
    reads = rw plain refl;
    short = omega arith;
    head = refl;
    body = refl;
    typed = λ v has. has;
  }

  smaller-IsReadable :
      (data' : Str) (o : Outcome Str) (w : Out)
      → get (str "Content-Encoding") w.header ≡ []
      → c.compress data' ≡ o
      → IsReadable c data' w (smaller data' o w)
  unfolding smaller set_header str_eq canonical
  smaller-IsReadable data' (failed e) w plain gives = plain-IsReadable data' w plain
  smaller-IsReadable data' (done b) w plain gives =
      elim (Bool-cases (ltb (length b) (length data'))) [
        | inl less ↦ simp (less) (record {
          reads =
              rw (get-set_self (str "Content-Encoding") (str "gzip") w.header)
                (lossless data' b gives);
          short = omega (arith, ltb→lt (length b) (length data') less);
          head = refl;
          body = refl;
          typed = λ v has.
              set-Has_other (str "Content-Encoding") (str "gzip") (str "Content-Type") v w.header
                refl has;
        })
        | inr more ↦ simp (more) (plain-IsReadable data' w plain)
      ]

  -- Whatever the registered gzip compressor is, if it is lossless, and where the response has no Content-Encoding before: a client that reads a response by its header
  -- Content-Encoding gets the encoded data back, compressed or not, and the body that is sent is never longer than the data.
  pub maybe_compress-IsReadable :
      (registry : Registry) (data' : Str) (can_compress : Bool) (w : Out)
      → get_compressor (str "gzip") registry ≡ some c
      → get (str "Content-Encoding") w.header ≡ []
      → IsReadable c data' w (maybe_compress registry data' can_compress w)
  unfolding maybe_compress with_compressor
  maybe_compress-IsReadable registry data' can_compress w found plain =
      if_both (λ (x : Str × Out). IsReadable c data' w x) (can_compress && should_compress data')
        (with_compressor data' (get_compressor (str "gzip") registry) w) (data', w)
        (rw found (smaller-IsReadable data' (c.compress data') w plain refl))
        (plain-IsReadable data' w plain)
