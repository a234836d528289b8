-- ===== src/Message/Tests.antt =====
-- Runs of the wire format, and its theorems at concrete messages.
use nya_queue.Prelude.{ℕ, ◌≡◌, refl, false, true, List, [], ◌∷◌, arith}
use nya_queue.Bytes.{be_bytes, be_value_from, write_at}
use nya_queue.Message.{Message, ok, err, too_short, marshal, unmarshal_message}
use nya_queue.Message.Decode.{IsMessage, unmarshal_message-marshal}
use nya_queue.Message.Accept.{marshal-unmarshal_message}

abbrev hello : Message
hello = record {
  header = record {
    priority = 3;
    timestamp = 258;
    produce_time = 7;
    append_time = 0xffff_ffff_ffff_ffff;
  };
  key = 107 ∷ [];
  value = 104 ∷ 105 ∷ [];
  batch_decoded = true;
}

abbrev hello_bytes : List ℕ
hello_bytes =
    3 ∷ 0 ∷ 0 ∷ 0 ∷ 0 ∷ 0 ∷ 0 ∷ 1 ∷ 2 ∷ 0 ∷ 0 ∷ 0 ∷ 0 ∷ 0 ∷ 0 ∷ 0 ∷ 7 ∷ 255 ∷ 255 ∷ 255 ∷ 255 ∷ 255
    ∷ 255 ∷ 255 ∷ 255 ∷ 0 ∷ 0 ∷ 0 ∷ 1 ∷ 107 ∷ 104 ∷ 105 ∷ []

marshal-hello : marshal hello ≡ hello_bytes
unfolding marshal write_at be_bytes
marshal-hello = refl

unmarshal-hello : unmarshal_message hello_bytes ≡ ok (record hello { batch_decoded = false })
unfolding unmarshal_message be_value_from
unmarshal-hello = refl

unmarshal_short : unmarshal_message (1 ∷ 2 ∷ []) ≡ err (too_short 2)
unfolding unmarshal_message be_value_from
unmarshal_short = refl

hello-IsMessage : IsMessage hello
hello-IsMessage = omega arith

unmarshal_message-marshal_example :
    unmarshal_message (marshal hello) ≡ ok (record hello { batch_decoded = false })
unmarshal_message-marshal_example = unmarshal_message-marshal hello hello-IsMessage

marshal-unmarshal_message_example : marshal (record hello { batch_decoded = false }) ≡ hello_bytes
marshal-unmarshal_message_example =
    marshal-unmarshal_message hello_bytes (record hello { batch_decoded = false }) (omega arith)
      unmarshal-hello
