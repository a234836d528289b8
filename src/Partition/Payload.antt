-- ===== src/Partition/Payload.antt =====
-- The payload of a compressed batch: what `AppendBatchCompressed` fills in, and that the loop of
-- `readFromBatchData` finds each message in it.
use nya_queue.Prelude.{
  ℕ, zero, suc, ◌+◌, ◌%◌, ◌≤◌, ◌<◌, ◌≡◌, ◌≢◌, refl, sym, ap, ap₂, ◌∙◌, true, false, Option, some,
  List, [], ◌∷◌, ◌++◌, arith, get_elem?, drop, length, length-append, append_assoc, length-drop,
  replicate, length-replicate, All,
}
use nya_queue.Prelude.Words.{mod32}
use nya_queue.Bytes.{be_bytes, be_value, slice, write_at}
use nya_queue.Bytes.BigEndian.{length-be_bytes, write_at-next, slice-append, be_value-be_bytes}
use nya_queue.Message
use nya_queue.Message.{Message, encoded_size, marshal, unmarshal_message}
use nya_queue.Message.Encode.{length-encoding, marshal-encoding}
use nya_queue.Message.Decode.{IsMessage, unmarshal_message-marshal}
use nya_queue.Partition.{ok, payload_size, fill_payload, payload_of, find_message}

pub length-marshal : (m : Message) → length (marshal m) ≡ encoded_size m
length-marshal m = ap length (marshal-encoding m) ∙ length-encoding m

-- A message with its length before it.
unfoldable pub frame : Message → List ℕ
frame m = be_bytes 4 (length (marshal m) % mod32) ++ marshal m

unfoldable pub frames : List Message → List ℕ
frames [] = []
frames (m ∷ msgs) = frame m ++ frames msgs

length-frame : (m : Message) → length (frame m) ≡ encoded_size m + 4
unfolding frame
length-frame m = omega (
  arith,
  length-append (be_bytes 4 (length (marshal m) % mod32)) (marshal m),
  length-be_bytes 4 (length (marshal m) % mod32),
  length-marshal m,
)

length-frames : (msgs : List Message) → length (frames msgs) ≡ payload_size msgs
unfolding frames payload_size
length-frames [] = refl
length-frames (m ∷ msgs) =
    omega (arith, length-append (frame m) (frames msgs), length-frame m, length-frames msgs)

fill_payload-frames :
    (msgs : List Message) (done rest : List ℕ)
    → length rest ≡ payload_size msgs
    → fill_payload (done ++ rest) (length done) msgs ≡ done ++ frames msgs
unfolding fill_payload frames payload_size frame
fill_payload-frames [] done [] h = refl
fill_payload-frames [] done (x ∷ rest) h = absurd (omega arith)
fill_payload-frames (m ∷ msgs) done rest h =
    ap (λ b. fill_payload (write_at b (length done + 4) enc) (length done + 4 + length enc) msgs)
      (write_at-next done rest len (length done) refl (omega (arith, lens, h)))
    ∙ ap (λ b. fill_payload b (length done + 4 + length enc) msgs)
        (write_at-next (done ++ len) (drop (length len) rest) enc (length done + 4)
          (omega (arith, lens, length-append done len))
          (omega (arith, lens, h, length-drop (length len) rest)))
    ∙ ap₂ (λ b o. fill_payload (b ++ left) o msgs) (append_assoc done len enc)
        (omega (arith, lens, length-append done (len ++ enc), length-append len enc))
    ∙ fill_payload-frames msgs (done ++ (len ++ enc)) left (
        omega (
          arith,
          lens,
          h,
          length-drop (length len) rest,
          length-drop (length enc) (drop (length len) rest),
        ))
    ∙ append_assoc done (len ++ enc) (frames msgs)
  where
    enc : List ℕ
    enc = marshal m

    len : List ℕ
    len = be_bytes 4 (length enc % mod32)

    left : List ℕ
    left = drop (length enc) (drop (length len) rest)

    lens : (length len ≡ 4) × (length enc ≡ encoded_size m)
    lens = (length-be_bytes 4 (length enc % mod32), length-marshal m)

-- The payload is the frames of the messages in their order.
pub payload_of-frames : (msgs : List Message) → payload_of msgs ≡ frames msgs
unfolding payload_of
payload_of-frames msgs =
    fill_payload-frames msgs [] (replicate (payload_size msgs) 0)
      (length-replicate {A = ℕ} (payload_size msgs) 0)

-- One round that skips a message, and the one that decodes it.
find_message_skip :
    (payload : List ℕ) (index i off left n : ℕ)
    → off + 4 ≤ length payload
    → i ≢ index
    → be_value (slice payload off 4) ≡ n
    → find_message payload index i off (suc left)
      ≡ find_message payload index (i + 1) (off + 4 + n) left
unfolding find_message
find_message_skip payload index i off left n room ne len = ground arith

find_message_hit :
    (payload : List ℕ) (i off left n : ℕ) (m : Message)
    → off + 4 + n ≤ length payload
    → be_value (slice payload off 4) ≡ n
    → unmarshal_message (slice payload (off + 4) n) ≡ Message.ok m
    → find_message payload i i off (suc left) ≡ ok (record m { batch_decoded = true })
unfolding find_message
find_message_hit payload i off left n m room len e = ground arith

-- The length that stands before a message, and the message behind it, in any surroundings.
frame-length :
    (done rest : List ℕ) (m : Message)
    → encoded_size m < mod32
    → be_value (slice (done ++ (frame m ++ rest)) (length done) 4) ≡ encoded_size m
unfolding frame
frame-length done rest m small =
    ap (λ t. be_value (slice (done ++ t) (length done) 4)) (append_assoc len (marshal m) rest)
    ∙ ap be_value (
        slice-append done len (marshal m ++ rest) (length done) 4 refl
          (sym (length-be_bytes 4 (length (marshal m) % mod32))))
    ∙ be_value-be_bytes 4 _ (omega arith)
    ∙ omega (arith, length-marshal m, small)
  where
    len : List ℕ
    len = be_bytes 4 (length (marshal m) % mod32)

frame_message :
    (done rest : List ℕ) (m : Message)
    → slice (done ++ (frame m ++ rest)) (length done + 4) (encoded_size m) ≡ marshal m
unfolding frame
frame_message done rest m =
    ap (λ t. slice t (length done + 4) (encoded_size m))
      (ap (λ t. done ++ t) (append_assoc len (marshal m) rest)
        ∙ sym (append_assoc done len (marshal m ++ rest)))
    ∙ slice-append (done ++ len) (marshal m) rest (length done + 4) (encoded_size m)
        (omega (arith, length-append done len, length-be_bytes 4 (length (marshal m) % mod32)))
        (sym (length-marshal m))
  where
    len : List ℕ
    len = be_bytes 4 (length (marshal m) % mod32)

some-injective_lem : {x y : Message} → ◌≡◌ {A = Option Message} (some x) (some y) → x ≡ y
some-injective_lem e = cc

frame_room :
    (done : List ℕ) (x : Message) (msgs : List Message)
    → length done + 4 + encoded_size x ≤ length (done ++ (frame x ++ frames msgs))
frame_room done x msgs = omega (
  arith,
  length-append done (frame x ++ frames msgs),
  length-append (frame x) (frames msgs),
  length-frame x,
)

-- The loop finds the message at `k` places behind the `i`-th, wherever the frames begin.
pub find_message-frames :
    (msgs : List Message) (k : ℕ) (m : Message) (done : List ℕ) (i left : ℕ)
    → get_elem? msgs k ≡ some m
    → All (λ x. IsMessage x × (encoded_size x < mod32)) msgs
    → k < left
    → find_message (done ++ frames msgs) (i + k) i (length done) left
      ≡ ok (record m { batch_decoded = true })
unfolding frames
find_message-frames [] k m done i left e v h = cc
find_message-frames (x ∷ msgs) k m done i zero e v h = absurd (omega arith)
find_message-frames (x ∷ msgs) zero m done i (suc left) e v h =
    ap (λ j. find_message (done ++ frames (x ∷ msgs)) j i (length done) (suc left)) (omega arith)
    ∙ find_message_hit _ i (length done) left (encoded_size x) (record x { batch_decoded = false })
        (omega (arith, frame_room done x msgs)) (frame-length done (frames msgs) x v.0.1)
        (ap unmarshal_message (frame_message done (frames msgs) x)
          ∙ unmarshal_message-marshal x v.0.0)
    ∙ ap (λ (y : Message). ok (record y { batch_decoded = true })) (some-injective_lem e)
find_message-frames (x ∷ msgs) (suc k) m done i (suc left) e v h =
    find_message_skip _ (i + suc k) i (length done) left (encoded_size x)
      (omega (arith, frame_room done x msgs)) (omega arith)
      (frame-length done (frames msgs) x v.0.1)
    ∙ ap₂ (λ p j. find_message p j (i + 1) (length done + 4 + encoded_size x) left)
        (sym (append_assoc done (frame x) (frames msgs))) (omega arith)
    ∙ ap (λ o. find_message ((done ++ frame x) ++ frames msgs) (i + 1 + k) (i + 1) o left)
        (omega (arith, length-append done (frame x), length-frame x))
    ∙ find_message-frames msgs k m (done ++ frame x) (i + 1) left e v.1 (omega arith)
