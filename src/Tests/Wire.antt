-- ===== src/Tests/Wire.antt =====
-- The buffer, the events and the channel.
use pwrapi.Prelude.{
  ℕ, ◌≡◌, refl, sym, ap, ◌∙◌, none, some, List, [], ◌∷◌, ◌++◌, length, take, drop, arith,
  if◌then◌else◌,
}
use pwrapi.Chars.Fields.{take-append, drop-append}
use pwrapi.Serial.{out_bytes, out_loop, push_items, push_vector}
use pwrapi.Serial.Words.{word_codec}
use pwrapi.Serial.Vectors.{u32, u64, byte}
use pwrapi.Events.{code, Event, server_connect_out, event_out}
use pwrapi.Events.RoundTrip.{FitsEvent}
use pwrapi.Events.Message.{Message, connect, type_of, event_of, message_out}
use pwrapi.Events.Message.RoundTrip.{server_port, alloc, takes, FitsMessage, alloc-message_out}
use pwrapi.Channel.{Socket}
use pwrapi.Channel.Fifo.{CanReceive, send_all, receive_all, receive_all-send_all}

-- A socket that holds the bytes that are written and not yet read.
abbrev pipe : Socket
pipe = record {
  Stream = List ℕ;
  contents = λ s. s;
  write = λ bs s. s ++ bs;
  read = λ n s. (take n s, drop n s);
  contents-write = λ bs s. refl;
  read_whole = λ n s bs rest len e. (
    ap (λ k. take k s) (sym len) ∙ ap (take (length bs)) e ∙ take-append bs rest,
    ap (λ k. drop k s) (sym len) ∙ ap (drop (length bs)) e ∙ drop-append bs rest,
  );
}

abbrev event : Event
event = record { type = 9; id = 5; status = 0 }

event-FitsEvent : FitsEvent event
unfolding word_codec u32 u64 byte
event-FitsEvent = record { type = omega arith; id = omega arith; status = omega arith }

-- A server's first event.
abbrev hello : Message
hello = connect (record { event = event; name = b'n' ∷ [] })

hello-FitsMessage : FitsMessage hello
hello-FitsMessage = record { event = event-FitsEvent; name = ground arith }

alloc-message_out_example :
    alloc server_port (code (type_of hello)) (message_out hello [])
    ≡ (if takes server_port (type_of hello) then some hello else none)
alloc-message_out_example = alloc-message_out server_port hello [] hello-FitsMessage

hello-CanReceive : CanReceive server_port hello
unfolding message_out event_of code server_connect_out event_out push_vector push_items out_bytes
    out_loop word_codec u32 u64 type_of
hello-CanReceive = (refl, hello-FitsMessage, omega arith, refl)

receive_all-send_all_example :
    (s' : List ℕ) × (receive_all pipe server_port 2 (send_all pipe (hello ∷ hello ∷ []) [])
      ≡ some (some hello ∷ some hello ∷ [], s'))
    × (pipe.contents s' ≡ [])
receive_all-send_all_example =
    receive_all-send_all pipe server_port (hello ∷ hello ∷ []) [] refl
      (hello-CanReceive, (hello-CanReceive, tt))
