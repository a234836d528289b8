-- ===== src/Codec.antt =====
-- pkg/broker/compression.go: codecs. The compressors of klauspost/compress, compress/gzip and
-- pierrec/lz4 are parameters.
use nya_queue.Prelude.{ℕ, arith, ◌≡◌, Option, some, List, ◌==◌, if◌then◌else◌}
use nya_queue.Prelude.Int.{ℤ, pos, negsuc}

abbrev pub compression_none : ℤ
compression_none = pos 0

-- `none` is an error.
pub record Codec : Type 0 where
  pub encode : List ℕ → Option (List ℕ)
  pub decode : List ℕ → Option (List ℕ)

-- The codecs that the file builds over the compressors.
pub record Compressors : Type 0 where
  pub snappy : Codec
  pub gzip : Codec
  pub lz4 : Codec

-- What is relied on of a compressor: what it has encoded it decodes again.
abbrev pub IsLossless : Codec → Type 0
IsLossless c = (src out : List ℕ) → c.encode src ≡ some out → c.decode out ≡ some src

abbrev pub noop_codec : Codec
noop_codec = record { encode = λ src. some src; decode = λ src. some src }

module _ (k : Compressors) where
  unfoldable pub new_codec : ℤ → Codec
  new_codec (pos t) =
      if t == 1 then k.snappy else if t == 2 then k.gzip else if t == 3 then k.lz4 else noop_codec
  new_codec (negsuc n) = noop_codec

  unfoldable pub compress : List ℕ → ℤ → Option (List ℕ)
  compress src codec = (new_codec codec).encode src

  unfoldable pub decompress : List ℕ → ℤ → Option (List ℕ)
  decompress src codec = (new_codec codec).decode src

  -- Every codec that `NewCodec` returns, for any number, decodes what it encoded, if the three
  -- compressors do.
  pub new_codec-IsLossless :
      IsLossless k.snappy
      → IsLossless k.gzip
      → IsLossless k.lz4
      → (t : ℤ) → IsLossless (new_codec t)
  unfolding new_codec
  new_codec-IsLossless s g l (pos t) src out e = ground (arith, s src out, g src out, l src out)
  new_codec-IsLossless s g l (negsuc n) src out e = ground arith
