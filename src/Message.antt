-- ===== src/Message.antt =====
-- pkg/broker/message.go: messages and their wire format
-- [priority:1][timestamp:8][produceTime:8][appendTime:8][keyLen:4][key][value].
pub mod Encode
pub mod Decode
pub mod Accept
mod Tests
use nya_queue.Prelude.{
  ℕ, ◌+◌, ◌-◌, ◌%◌, Bool, false, List, [], ◌∷◌, ◌++◌, ltb, if◌then◌else◌, length, get_or, set, take,
  drop, copy, replicate,
}
use nya_queue.Prelude.Words.{mod32}
use nya_queue.Bytes.{be_bytes, be_value, slice, write_at}

abbrev pub timestamp_off : ℕ
timestamp_off = 1

abbrev pub produce_time_off : ℕ
produce_time_off = 9

abbrev pub append_time_off : ℕ
append_time_off = 17

abbrev pub key_len_off : ℕ
key_len_off = 25

abbrev pub key_off : ℕ
key_off = 29

abbrev pub header_size : ℕ
header_size = key_len_off

abbrev pub metadata_size : ℕ
metadata_size = key_off

-- The times are int64, by their bit patterns.
pub record MessageHeader : Type 0 where
  pub priority : ℕ
  pub timestamp : ℕ
  pub produce_time : ℕ
  pub append_time : ℕ

pub record Message : Type 0 where
  pub header : MessageHeader
  pub key : List ℕ
  pub value : List ℕ
  pub batch_decoded : Bool

pub data Error : Type 0 where
  too_short : ℕ → Error
  truncated : ℕ → ℕ → Error
  header_too_short : ℕ → Error

pub data Result {ℓ} (A : Type ℓ) : Type ℓ where
  ok : A → Result A
  err : Error → Result A

-- `now` is the reading of the clock.
unfoldable pub new_message : ℕ → ℕ → List ℕ → List ℕ → Message
new_message now priority key value = record {
  header = record { priority = priority; timestamp = now; produce_time = 0; append_time = 0 };
  key = key;
  value = value;
  batch_decoded = false;
}

unfoldable pub encoded_size : Message → ℕ
encoded_size m = metadata_size + length m.key + length m.value

-- The stores one after the other, in a buffer of `encodedSize` bytes. The one of the key goes to
-- `buf[keyOff:keyOff+kl]`, which is as long as the key.
unfoldable pub marshal_into : List ℕ → Message → List ℕ
marshal_into buf m =
    let kl = length m.key in
    let b0 = write_at buf 0 (m.header.priority ∷ []) in
    let b1 = write_at b0 timestamp_off (be_bytes 8 m.header.timestamp) in
    let b2 = write_at b1 produce_time_off (be_bytes 8 m.header.produce_time) in
    let b3 = write_at b2 append_time_off (be_bytes 8 m.header.append_time) in
    let b4 = write_at b3 key_len_off (be_bytes 4 (kl % mod32)) in
    let b5 = write_at b4 key_off m.key in write_at b5 (key_off + kl) m.value

unfoldable pub marshal : Message → List ℕ
unfolding marshal_into encoded_size
marshal m = marshal_into (replicate (encoded_size m) 0) m

-- `pooled` is the buffer that the pool hands out, to its full capacity, with what its last user left.
unfoldable pub marshal_pooled : List ℕ → Message → List ℕ
unfolding marshal_into encoded_size
marshal_pooled pooled m =
    let needed = encoded_size m in
    marshal_into (if ltb (length pooled) needed then replicate needed 0 else take needed pooled) m

-- The header fields that both decoders read.
unfoldable pub header_at : List ℕ → MessageHeader
header_at bytes = record {
  priority = get_or bytes 0 0;
  timestamp = be_value (slice bytes timestamp_off 8);
  produce_time = be_value (slice bytes produce_time_off 8);
  append_time = be_value (slice bytes append_time_off 8);
}

-- The key and the value are copies, `copy(make([]byte, n), src)`.
abbrev pub clone : List ℕ → List ℕ
clone src = copy (replicate (length src) 0) src

unfoldable pub unmarshal_message : List ℕ → Result Message
unfolding header_at
unmarshal_message bytes =
    let kl = be_value (slice bytes key_len_off 4) in
    if ltb (length bytes) metadata_size
    then err (too_short (length bytes))
    else if ltb (length bytes) (metadata_size + kl)
    then err (truncated (length bytes) kl)
    else ok (record {
      header = header_at bytes;
      key = clone (slice bytes key_off kl);
      value = clone (drop (key_off + kl) bytes);
      batch_decoded = false;
    })

unfoldable pub unmarshal_header : List ℕ → Result MessageHeader
unfolding header_at
unmarshal_header bytes =
    if ltb (length bytes) header_size
    then err (header_too_short (length bytes))
    else ok (header_at bytes)
