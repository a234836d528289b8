-- ===== src/Message/Decode.antt =====
-- What `UnmarshalMessage` and `UnmarshalHeader` read back, and the data they refuse.
use nya_queue.Prelude.{
  ℕ, ◌+◌, ◌%◌, ◌^◌, ◌<◌, ◌≡◌, refl, sym, ap, ap₂, ◌∙◌, false, List, [], ◌∷◌, ◌++◌, arith, drop,
  length, length-append, append-nil, append_assoc, replicate, length-replicate, drop-all, copy-eq,
  drop-append,
}
use nya_queue.Prelude.Words.{mod32, mod64}
use nya_queue.Bytes.{IsByte, be_bytes, be_value, slice}
use nya_queue.Bytes.BigEndian.{length-be_bytes, be_value-be_bytes, slice-append}
use nya_queue.Message.{
  key_len_off, key_off, Message, encoded_size, marshal, ok, header_at, clone, unmarshal_message,
  unmarshal_header,
}
use nya_queue.Message.Encode.{
  encoding, header_bytes, length-header_bytes, length-encoding, marshal-encoding,
}

-- A message that Go can hold: a byte of priority, three int64 times, a key whose length fits uint32.
pub record IsMessage (m : Message) : Type 0 where
  pub priority_byte : IsByte m.header.priority
  pub timestamp_word : m.header.timestamp < mod64
  pub produce_time_word : m.header.produce_time < mod64
  pub append_time_word : m.header.append_time < mod64
  pub key_length : length m.key < mod32

pub clone-eq : (src : List ℕ) → clone src ≡ src
clone-eq src =
    copy-eq (replicate (length src) 0) src (omega (arith, length-replicate {A = ℕ} (length src) 0))
    ∙ ap (λ t. src ++ t)
        (drop-all (length src) (replicate (length src) 0)
          (omega (arith, length-replicate {A = ℕ} (length src) 0)))
    ∙ append-nil src

-- A number stored in a part of the data is read back from its slice.
field-read :
    (bytes front back : List ℕ) (off n x : ℕ)
    → bytes ≡ front ++ (be_bytes n x ++ back)
    → off ≡ length front
    → x < 256 ^ n
    → be_value (slice bytes off n) ≡ x
field-read bytes front back off n x e h w =
    ap be_value (
      ap (λ t. slice t off n) e
      ∙ slice-append front (be_bytes n x) back off n h (sym (length-be_bytes n x)))
    ∙ be_value-be_bytes n x w

-- What follows the header fields.
abbrev pub body : Message → List ℕ
body m = be_bytes 4 (length m.key % mod32) ++ (m.key ++ m.value)

header_at-encoding : (m : Message) → IsMessage m → header_at (encoding m) ≡ m.header
unfolding header_at encoding header_bytes
header_at-encoding m v = ground (
  arith,
  field-read (encoding m) (p ∷ []) (b ++ (c ++ body m)) 1 8 m.header.timestamp (simp append_assoc)
      refl v.timestamp_word,
  field-read (encoding m) (p ∷ a) (c ++ body m) 9 8 m.header.produce_time (simp append_assoc)
      (omega (arith, length-be_bytes 8 m.header.timestamp)) v.produce_time_word,
  field-read (encoding m) (p ∷ (a ++ b)) (body m) 17 8 m.header.append_time (simp append_assoc)
      (omega (
        arith,
        length-append a b,
        length-be_bytes 8 m.header.timestamp,
        length-be_bytes 8 m.header.produce_time,
      ))
      v.append_time_word,
)
  where
    p : ℕ
    p = m.header.priority

    a : List ℕ
    a = be_bytes 8 m.header.timestamp

    b : List ℕ
    b = be_bytes 8 m.header.produce_time

    c : List ℕ
    c = be_bytes 8 m.header.append_time

key_len-encoding :
    (m : Message) → IsMessage m → be_value (slice (encoding m) key_len_off 4) ≡ length m.key
unfolding encoding
key_len-encoding m v =
    field-read (encoding m) (header_bytes m) (m.key ++ m.value) 25 4 (length m.key % mod32) refl
      (sym (length-header_bytes m)) (omega arith)
    ∙ omega (arith, v.key_length)

key-encoding : (m : Message) → slice (encoding m) key_off (length m.key) ≡ m.key
unfolding encoding
key-encoding m =
    ap (λ t. slice t key_off (length m.key))
      (sym (append_assoc (header_bytes m) _ (m.key ++ m.value)))
    ∙ slice-append (header_bytes m ++ be_bytes 4 (length m.key % mod32)) m.key m.value key_off
        (length m.key)
        (omega (
          arith,
          length-append (header_bytes m) (be_bytes 4 (length m.key % mod32)),
          length-header_bytes m,
          length-be_bytes 4 (length m.key % mod32),
        ))
        refl

value-encoding : (m : Message) → drop (key_off + length m.key) (encoding m) ≡ m.value
unfolding encoding
value-encoding m =
    ap₂ drop front_length (from_front ∙ sym (append_assoc front m.key m.value))
    ∙ drop-append (front ++ m.key) m.value
  where
    lens : ℕ
    lens = length m.key % mod32

    front : List ℕ
    front = header_bytes m ++ be_bytes 4 lens

    from_front : encoding m ≡ front ++ (m.key ++ m.value)
    from_front = sym (append_assoc (header_bytes m) (be_bytes 4 lens) (m.key ++ m.value))

    front_length : key_off + length m.key ≡ length (front ++ m.key)
    front_length = omega (
      arith,
      length-append front m.key,
      length-append (header_bytes m) (be_bytes 4 lens),
      length-header_bytes m,
      length-be_bytes 4 lens,
    )

-- Let a message have a byte as its priority, 64-bit words as its times and a key shorter than
-- 2^32. Then `UnmarshalMessage` reads back from the bytes of `Marshal` the same message, with the
-- `BatchDecoded` flag cleared.
pub unmarshal_message-marshal :
    (m : Message)
    → IsMessage m
    → unmarshal_message (marshal m) ≡ ok (record m { batch_decoded = false })
unfolding unmarshal_message encoded_size
unmarshal_message-marshal m v =
    ap unmarshal_message (marshal-encoding m)
    ∙ ground (
      arith,
      length-encoding m,
      key_len-encoding m v,
      key-encoding m,
      value-encoding m,
      header_at-encoding m v,
      clone-eq m.key,
      clone-eq m.value,
    )

-- Let a message have a byte as its priority, 64-bit words as its times and a key shorter than
-- 2^32. Then `UnmarshalHeader` reads its header back from the bytes of `Marshal`.
pub unmarshal_header-marshal :
    (m : Message) → IsMessage m → unmarshal_header (marshal m) ≡ ok m.header
unfolding unmarshal_header encoded_size
unmarshal_header-marshal m v =
    ap unmarshal_header (marshal-encoding m)
    ∙ ground (arith, length-encoding m, header_at-encoding m v)
