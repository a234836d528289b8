-- ===== src/Message/Encode.antt =====
-- What `Marshal` and `MarshalPooled` write.
use nya_queue.Prelude.{
  ℕ, ◌+◌, ◌%◌, ◌≡◌, refl, sym, ap, ap₂, ◌∙◌, List, [], ◌∷◌, ◌++◌, arith, take, drop, length,
  length-append, append-nil, append_assoc, replicate, length-replicate, length-take, length-drop,
  ltb, if◌then◌else◌,
}
use nya_queue.Prelude.Words.{mod32}
use nya_queue.Bytes.{be_bytes, write_at}
use nya_queue.Bytes.BigEndian.{length-be_bytes, write_at-next}
use nya_queue.Message.{Message, encoded_size, marshal_into, marshal, marshal_pooled}

-- The wire format.
unfoldable pub header_bytes : Message → List ℕ
header_bytes m =
    m.header.priority
    ∷ (be_bytes 8 m.header.timestamp
        ++ (be_bytes 8 m.header.produce_time ++ be_bytes 8 m.header.append_time))

unfoldable pub encoding : Message → List ℕ
encoding m = header_bytes m ++ (be_bytes 4 (length m.key % mod32) ++ (m.key ++ m.value))

-- Stores that follow one another fill the buffer from its start.
abbrev write_all : List ℕ → ℕ → List (List ℕ) → List ℕ
write_all buf off [] = buf
write_all buf off (src ∷ srcs) = write_all (write_at buf off src) (off + length src) srcs

abbrev joined : List (List ℕ) → List ℕ
joined [] = []
joined (src ∷ srcs) = src ++ joined srcs

write_all-joined :
    (srcs : List (List ℕ)) (done rest : List ℕ)
    → length (joined srcs) ≡ length rest
    → write_all (done ++ rest) (length done) srcs ≡ done ++ joined srcs
write_all-joined [] done [] h = refl
write_all-joined [] done (x ∷ rest) h = absurd (omega arith)
write_all-joined (src ∷ srcs) done rest h =
    ap₂ (λ b o. write_all b o srcs)
      (write_at-next done rest src (length done) refl
        (omega (arith, length-append src (joined srcs))))
      (sym (length-append done src))
    ∙ write_all-joined srcs (done ++ src) (drop (length src) rest)
        (omega (arith, length-append src (joined srcs), length-drop (length src) rest))
    ∙ append_assoc done src (joined srcs)

parts : Message → List (List ℕ)
parts m =
    (m.header.priority ∷ [])
    ∷ be_bytes 8 m.header.timestamp
    ∷ be_bytes 8 m.header.produce_time
    ∷ be_bytes 8 m.header.append_time
    ∷ be_bytes 4 (length m.key % mod32)
    ∷ m.key
    ∷ m.value
    ∷ []

marshal_into-write_all :
    (buf : List ℕ) (m : Message) → marshal_into buf m ≡ write_all buf 0 (parts m)
unfolding marshal_into parts
marshal_into-write_all buf m = simp length-be_bytes

joined-parts : (m : Message) → joined (parts m) ≡ encoding m
unfolding parts encoding header_bytes
joined-parts m = simp (append_assoc, append-nil)

pub length-header_bytes : (m : Message) → length (header_bytes m) ≡ 25
unfolding header_bytes
length-header_bytes m = omega (
  arith,
  length-append (be_bytes 8 m.header.timestamp)
      (be_bytes 8 m.header.produce_time ++ be_bytes 8 m.header.append_time),
  length-append (be_bytes 8 m.header.produce_time) (be_bytes 8 m.header.append_time),
  length-be_bytes 8 m.header.timestamp,
  length-be_bytes 8 m.header.produce_time,
  length-be_bytes 8 m.header.append_time,
)

-- `encodedSize` is the length of the wire format.
pub length-encoding : (m : Message) → length (encoding m) ≡ encoded_size m
unfolding encoding encoded_size
length-encoding m = omega (
  arith,
  length-header_bytes m,
  length-append (header_bytes m) (be_bytes 4 (length m.key % mod32) ++ (m.key ++ m.value)),
  length-append (be_bytes 4 (length m.key % mod32)) (m.key ++ m.value),
  length-append m.key m.value,
  length-be_bytes 4 (length m.key % mod32),
)

-- `marshalInto` overwrites every byte of a buffer of `encodedSize` bytes with the wire format.
pub marshal_into-encoding :
    (buf : List ℕ) (m : Message) → length buf ≡ encoded_size m → marshal_into buf m ≡ encoding m
marshal_into-encoding buf m h =
    marshal_into-write_all buf m
    ∙ write_all-joined (parts m) [] buf (ap length (joined-parts m) ∙ length-encoding m ∙ sym h)
    ∙ joined-parts m

pub marshal-encoding : (m : Message) → marshal m ≡ encoding m
unfolding marshal
marshal-encoding m = marshal_into-encoding _ m (length-replicate (encoded_size m) 0)

-- A pooled buffer, whatever it holds and whatever its capacity, changes nothing: `MarshalPooled`
-- returns the bytes of `Marshal`.
pub marshal_pooled-eq-marshal :
    (pooled : List ℕ) (m : Message) → marshal_pooled pooled m ≡ marshal m
unfolding marshal_pooled
marshal_pooled-eq-marshal pooled m = marshal_into-encoding _ m room ∙ sym (marshal-encoding m)
  where
    room :
        length (
          if ltb (length pooled) (encoded_size m)
          then replicate (encoded_size m) 0
          else take (encoded_size m) pooled)
        ≡ encoded_size m
    room =
        ground
          (arith, length-replicate {A = ℕ} (encoded_size m) 0, length-take (encoded_size m) pooled)
