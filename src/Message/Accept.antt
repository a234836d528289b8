-- ===== src/Message/Accept.antt =====
-- The data that `UnmarshalMessage` accepts: exactly the wire formats of messages.
use nya_queue.Prelude.{
  ℕ, zero, suc, ◌+◌, ◌%◌, ◌≤◌, ◌<◌, ◌≡◌, refl, sym, ap, ap₂, ◌∙◌, List, [], ◌∷◌, ◌++◌, arith,
  append_assoc, get_or, take, drop, length, length-take, length-drop, take-append-drop,
}
use nya_queue.Prelude.Words.{mod32}
use nya_queue.Bytes.{AreBytes, be_bytes, be_value, slice}
use nya_queue.Bytes.BigEndian.{be_value-lt, be_bytes-be_value}
use nya_queue.Message.{
  key_len_off, key_off, metadata_size, MessageHeader, Message, marshal, Error, too_short, ok, err,
  header_at, unmarshal_message, unmarshal_header,
}
use nya_queue.Message.Encode.{encoding, header_bytes, marshal-encoding}
use nya_queue.Message.Decode.{clone-eq, body}

AreBytes-take : (n : ℕ) (bs : List ℕ) → AreBytes bs → AreBytes (take n bs)
AreBytes-take zero bs h = tt
AreBytes-take (suc n) [] h = tt
AreBytes-take (suc n) (b ∷ bs) h = (h.0, AreBytes-take n bs h.1)

AreBytes-drop : (n : ℕ) (bs : List ℕ) → AreBytes bs → AreBytes (drop n bs)
AreBytes-drop zero bs h = h
AreBytes-drop (suc n) [] h = h
AreBytes-drop (suc n) (b ∷ bs) h = AreBytes-drop n bs h.1

drop-nil : (n : ℕ) → drop {A = ℕ} n [] ≡ []
drop-nil zero = refl
drop-nil (suc n) = refl

drop-drop : (m n : ℕ) (bs : List ℕ) → drop n (drop m bs) ≡ drop (m + n) bs
drop-drop zero n bs = ap (λ k. drop k bs) (omega arith)
drop-drop (suc m) n [] = drop-nil n ∙ sym (drop-nil (suc m + n))
drop-drop (suc m) n (b ∷ bs) = drop-drop m n bs ∙ ap (λ k. drop k (b ∷ bs)) (sum m n)
  where
    sum : (m n : ℕ) → suc (m + n) ≡ suc m + n
    sum m n = omega arith

-- The data from `off` on is the slice there, and the data behind it.
slice-drop :
    (bytes : List ℕ) (off n : ℕ) → slice bytes off n ++ drop (off + n) bytes ≡ drop off bytes
slice-drop bytes off n =
    ap (λ t. slice bytes off n ++ t) (sym (drop-drop off n bytes))
    ∙ take-append-drop n (drop off bytes)

length-slice :
    (bytes : List ℕ) (off n : ℕ) → off + n ≤ length bytes → length (slice bytes off n) ≡ n
length-slice bytes off n h = omega (arith, length-take n (drop off bytes), length-drop off bytes)

slice-AreBytes : (bytes : List ℕ) (off n : ℕ) → AreBytes bytes → AreBytes (slice bytes off n)
slice-AreBytes bytes off n h = AreBytes-take n _ (AreBytes-drop off bytes h)

-- Storing what was read gives the slice back.
stored :
    (bytes : List ℕ) (off n : ℕ)
    → AreBytes bytes
    → off + n ≤ length bytes
    → be_bytes n (be_value (slice bytes off n)) ≡ slice bytes off n
stored bytes off n h k =
    be_bytes-be_value n _ (length-slice bytes off n k) (slice-AreBytes bytes off n h)

accepted :
    (bytes : List ℕ) (m : Message)
    → unmarshal_message bytes ≡ ok m
    → let kl = be_value (slice bytes key_len_off 4) in
      (metadata_size + kl ≤ length bytes)
      × (m.header ≡ header_at bytes)
      × (m.key ≡ slice bytes key_off kl)
      × (m.value ≡ drop (key_off + kl) bytes)
unfolding unmarshal_message
accepted bytes m e =
    let kl = be_value (slice bytes key_len_off 4) in
    ground (arith, clone-eq (slice bytes key_off kl), clone-eq (drop (key_off + kl) bytes))

get_or-drop : (bytes : List ℕ) → 0 < length bytes → get_or bytes 0 0 ∷ drop 1 bytes ≡ bytes
get_or-drop [] h = absurd (omega arith)
get_or-drop (b ∷ bs) h = refl

-- A stored number and the data behind it are the data from its place on.
join :
    (bytes rest : List ℕ) (off n x : ℕ)
    → AreBytes bytes
    → off + n ≤ length bytes
    → x ≡ be_value (slice bytes off n)
    → rest ≡ drop (off + n) bytes
    → be_bytes n x ++ rest ≡ drop off bytes
join bytes rest off n x h k e r =
    ap₂ ◌++◌ (ap (be_bytes n) e ∙ stored bytes off n h k) r ∙ slice-drop bytes off n

body-bytes :
    (bytes : List ℕ) (m : Message) (kl : ℕ)
    → kl ≡ be_value (slice bytes key_len_off 4)
    → AreBytes bytes
    → metadata_size + kl ≤ length bytes
    → m.key ≡ slice bytes key_off kl
    → m.value ≡ drop (key_off + kl) bytes
    → body m ≡ drop key_len_off bytes
body-bytes bytes m kl ek h room key value =
    join bytes (m.key ++ m.value) 25 4 (length m.key % mod32) h (omega arith) len
      (ap₂ ◌++◌ key value ∙ slice-drop bytes key_off kl)
  where
    small : kl < mod32
    small = omega (
      arith,
      ek,
      be_value-lt 4 (slice bytes 25 4) (length-slice bytes 25 4 (omega arith))
          (slice-AreBytes bytes 25 4 h),
    )

    len : length m.key % mod32 ≡ be_value (slice bytes 25 4)
    len = omega (arith, ek, small, ap length key, length-slice bytes key_off kl room)

encoding_assoc :
    (m : Message)
    → encoding m
      ≡ m.header.priority
        ∷ (be_bytes 8 m.header.timestamp
            ++ (be_bytes 8 m.header.produce_time ++ (be_bytes 8 m.header.append_time ++ body m)))
unfolding encoding header_bytes
encoding_assoc m = simp append_assoc

encoding-bytes :
    (bytes : List ℕ) (m : Message)
    → AreBytes bytes
    → metadata_size ≤ length bytes
    → m.header ≡ header_at bytes
    → body m ≡ drop key_len_off bytes
    → encoding m ≡ bytes
unfolding header_at
encoding-bytes bytes m h room eh eb =
    encoding_assoc m
    ∙ ap₂ ◌∷◌ (ap (λ (r : MessageHeader). r.priority) eh) (
        join bytes _ 1 8 m.header.timestamp h (omega arith)
          (ap (λ (r : MessageHeader). r.timestamp) eh)
          (join bytes _ 9 8 m.header.produce_time h (omega arith)
            (ap (λ (r : MessageHeader). r.produce_time) eh)
            (join bytes _ 17 8 m.header.append_time h (omega arith)
              (ap (λ (r : MessageHeader). r.append_time) eh) eb)))
    ∙ get_or-drop bytes (omega arith)

-- Whatever bytes (numbers below 256) `UnmarshalMessage` accepts are the bytes that `Marshal`
-- writes for the message it returns.
pub marshal-unmarshal_message :
    (bytes : List ℕ) (m : Message)
    → AreBytes bytes
    → unmarshal_message bytes ≡ ok m
    → marshal m ≡ bytes
marshal-unmarshal_message bytes m h e =
    let (room, eh, key, value) = accepted bytes m e in
    marshal-encoding m
    ∙ encoding-bytes bytes m h (omega arith) eh (body-bytes bytes m _ refl h room key value)

-- `UnmarshalHeader` returns the header of whatever message `UnmarshalMessage` returns for the
-- same bytes, and `UnmarshalMessage` refuses, as too short, what `UnmarshalHeader` refuses.
pub unmarshal_header-unmarshal_message :
    (bytes : List ℕ)
    → ((m : Message) → unmarshal_message bytes ≡ ok m → unmarshal_header bytes ≡ ok m.header)
      × ((e : Error)
          → unmarshal_header bytes ≡ err e
          → unmarshal_message bytes ≡ err (too_short (length bytes)))
unfolding unmarshal_message unmarshal_header
unmarshal_header-unmarshal_message bytes = (λ m e. ground arith, λ x e. ground arith)
