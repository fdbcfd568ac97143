-- ===== src/Tests/Data.antt =====
-- The inputs of the tests: messages, frames, a parser, a pin, a queue.
use tp5_borda_rojas.Base.{
  ℕ, ◌≤◌, ◌<◌, Bool, true, false, not, Option, none, some, List, ◌++◌, ◌∷◌, [], ◌≡◌, if◌then◌else◌,
  refl, arith, Bytes, codes, length, replicate, ltb,
}
use tp5_borda_rojas.Protocol.Message.{Message, cmd, ack, type_to_text}
use tp5_borda_rojas.Protocol.Spec.{IsBody, IsFrame, IsSendable}
use tp5_borda_rojas.Parser.{Parser, Field, wait_start, read_len_hi}
use tp5_borda_rojas.Parser.Reading.{IsReading}
use tp5_borda_rojas.Queue.{QueueApi}
use tp5_borda_rojas.Actuators.{Gpio}
use tp5_borda_rojas.App.{AppState, Counters}

abbrev pub ping : Message
ping = record { type = cmd; payload = codes "ping"; payload_length = 4 }

abbrev pub pong : Message
pong = record { type = ack; payload = codes "pong=1"; payload_length = 6 }

abbrev pub led_on : Message
led_on = record { type = cmd; payload = codes "led=on"; payload_length = 6 }

abbrev pub ping_frame : Bytes
ping_frame = codes "@08:CMD:ping:52\n"

pub ping-IsBody : IsBody (codes "CMD:ping") ping
unfolding type_to_text
ping-IsBody = record { type_valid = ground arith; fits = omega arith; counted = refl; text = refl }

pub ping_frame-IsFrame : IsFrame ping_frame ping
ping_frame-IsFrame = record {
  len_hi = b'0';
  len_lo = b'8';
  body = codes "CMD:ping";
  check_hi = b'5';
  check_lo = b'2';
  text = refl;
  len = record { hi = 0; lo = 8; hi_digit = ground arith; lo_digit = ground arith; value = refl };
  check = record { hi = 5; lo = 2; hi_digit = ground arith; lo_digit = ground arith; value = refl };
  is_body = ping-IsBody;
}

pub ping-IsSendable : IsSendable ping
ping-IsSendable = record {
  type_valid = ground arith;
  fits = omega arith;
  counted = refl;
  no_nul = ground arith;
}

abbrev empty_field : Field
empty_field = record { hi = 0; lo = 0; terminator = 0 }

-- A parser that waits, with a `5` left in each cell of the body.
abbrev pub waiting : Parser
waiting = record {
  state = wait_start;
  length_field = empty_field;
  body = replicate 53 b'5';
  checksum_field = empty_field;
  expected_body_length = 0;
  body_index = 0;
}

pub waiting-IsReading : IsReading waiting []
waiting-IsReading = record { size = refl; reading = refl }

abbrev pub started : Parser
started = record waiting { state = read_len_hi }

pub started-IsReading : IsReading started (b'@' ∷ [])
started-IsReading = record { size = refl; reading = refl }

abbrev pub pin : Gpio
pin = record {
  Pin = Bool;
  is_high = λ p. p;
  gpio_set = λ p. true;
  gpio_clear = λ p. false;
  gpio_toggle = not;
  high_set = λ p. refl;
  high_clear = λ p. refl;
  high_toggle = λ p. refl;
}

abbrev pub app : AppState
app = record { rx_count = 7; error_count = 1 }

abbrev pub counters : Counters
counters = record {
  rx_irq_count = 120;
  parser_byte_count = 118;
  parser_message_count = 7;
  parser_error_count = 2;
  rx_drop_count = 0;
}

-- A queue as its room and its items.
module _ (A : Type 0) where
  abbrev bounded_send : ℕ × List A → A → Option (ℕ × List A)
  bounded_send (n, l) a = if ltb (length l) n then some (n, l ++ (a ∷ [])) else none

  abbrev bounded_receive : ℕ × List A → Option (A × (ℕ × List A))
  bounded_receive (n, []) = none
  bounded_receive (n, a ∷ l) = some (a, (n, l))

  pub bounded_create_empty :
      (i n : ℕ) {q : ℕ × List A}
      → ◌≡◌ {A = Option (ℕ × List A)} (some (n, [])) (some q)
      → (q.1 ≡ []) × (q.0 ≡ n)
  bounded_create_empty i n e = (cc, cc)

  pub bounded_send_full : (q : ℕ × List A) (a : A) → q.0 ≤ length q.1 → bounded_send q a ≡ none
  bounded_send_full (n, l) a h = let full : ltb (length l) n ≡ false = ground arith in rw full

  pub bounded_send_room :
      (q : ℕ × List A) (a : A)
      → length q.1 < q.0
      → (q' : ℕ × List A) × (bounded_send q a ≡ some q') × (q'.1 ≡ q.1 ++ (a ∷ [])) × (q'.0 ≡ q.0)
  bounded_send_room (n, l) a h =
      let has : ltb (length l) n ≡ true = ground arith in ((n, l ++ (a ∷ [])), rw has, refl, refl)

  pub bounded_receive_empty : (q : ℕ × List A) → q.1 ≡ [] → bounded_receive q ≡ none
  bounded_receive_empty (n, []) h = refl
  bounded_receive_empty (n, a ∷ l) h = absurd (cc)

  pub bounded_receive_first :
      (q : ℕ × List A) (a : A) (rest : List A)
      → q.1 ≡ a ∷ rest
      → (q' : ℕ × List A) × (bounded_receive q ≡ some (a, q')) × (q'.1 ≡ rest) × (q'.0 ≡ q.0)
  bounded_receive_first (n, []) a rest h = absurd (cc)
  bounded_receive_first (n, b ∷ l) a rest h = ((n, l), cc, cc, refl)

  abbrev pub queues : QueueApi A
  queues = record {
    Queue = ℕ × List A;
    items = λ q. q.1;
    room = λ q. q.0;
    create = λ i n. some (n, []);
    send = bounded_send;
    receive = bounded_receive;
    create_empty = bounded_create_empty;
    send_full = bounded_send_full;
    send_room = bounded_send_room;
    receive_empty = bounded_receive_empty;
    receive_first = bounded_receive_first;
  }

abbrev pub bounded : QueueApi ℕ
bounded = queues ℕ
