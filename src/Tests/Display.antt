-- ===== src/Tests/Display.antt =====
-- The theorems on display buffers and their tracker at concrete inputs.
use ip_commandmic.Prelude.{
  ◌+◌, ◌≡◌, refl, arith, [], ◌++◌, Text, codes, true, none, some, length, replicate,
}
use ip_commandmic.Errors.{ok}
use ip_commandmic.Models.{radio_to_mic, Message, display_ack}
use ip_commandmic.Display.Tables.{baseline_display_tail}
use ip_commandmic.Display.Buffer.{
  DisplayBuffer, from_primary_text, primary_text, unknown_tail, indicators_of,
}
use ip_commandmic.Display.Buffer
use ip_commandmic.Display.Buffer.Primary.{composed, from_primary_text-primary_text}
use ip_commandmic.Display.Buffer.Indicators.{icons_by_bits, indicators_of-by_bits}
use ip_commandmic.Display.State.{initial, after_buffer, consume, consume_all}
use ip_commandmic.Display.State.Laws.{
  Reports, consume-Reports, IsTracking, no_buffer, consume-IsTracking,
}
use ip_commandmic.Protocol.Stream.{Parsed, parse_stream}
use ip_commandmic.Protocol.Encode.{encode_display_transaction}
use ip_commandmic.Protocol.Encode.Display.{
  before_frame, buffer_frame, after_frame, display_transaction,
}

abbrev volume : Text
volume = codes "VOL 12"

from_primary_text-primary_text_example :
    (from_primary_text volume baseline_display_tail
      ≡ Buffer.ok (composed volume baseline_display_tail))
    × (length (composed volume baseline_display_tail).raw ≡ 68)
    × (primary_text (composed volume baseline_display_tail) ≡ volume)
    × (unknown_tail (composed volume baseline_display_tail) ≡ baseline_display_tail)
from_primary_text-primary_text_example =
    from_primary_text-primary_text volume baseline_display_tail (omega arith) (omega arith) refl

indicators_of-by_bits_example : indicators_of 0x8A ≡ icons_by_bits 0x8A
indicators_of-by_bits_example = indicators_of-by_bits 0x8A (omega arith)

abbrev ack : Message
ack = record {
  raw = [];
  direction = radio_to_mic;
  kind = display_ack;
  framing_valid = true;
  checksum_valid = none;
  evidence = none;
  metadata = [];
}

consume-Reports_example : Reports initial (consume initial ack)
consume-Reports_example = consume-Reports initial ack

consume-IsTracking_example : IsTracking (consume initial ack).0
consume-IsTracking_example = consume-IsTracking initial ack (no_buffer refl refl)

abbrev blank : DisplayBuffer
blank = record { raw = replicate 68 0x20 }

display_transaction_example :
    (encode_display_transaction blank ≡ ok (before_frame, buffer_frame blank, after_frame))
    × ((p : Parsed) × (parse_stream
            (before_frame ++ (buffer_frame blank ++ (after_frame ++ [])))
            radio_to_mic
          ≡ some p)
        × (p.remainder ≡ [])
        × (length p.messages ≡ 3)
        × (consume_all initial p.messages ≡ record {
          current = some blank;
          phase = after_buffer;
          revision = 0 + 1;
          last_warning = none;
        }))
display_transaction_example = display_transaction blank refl (omega arith) initial
