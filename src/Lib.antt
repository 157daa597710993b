-- ===== src/Lib.antt =====
-- The CommandMic control protocol: a model of the Python package src/ip_commandmic.
--
-- The program speaks the application protocol between a radio and its IP command
-- microphone. A message travels as a frame: a start byte F3 or F5, the magic 41 71, a
-- class, a command, a 16-bit length, a payload, a CRC-16 and the terminator FD; bytes from
-- F0 to FF between start and terminator are stuffed as FF and the low nibble. A stream
-- parser cuts the byte stream into messages, classification reads each frame into a kind
-- and metadata, and a tracker follows the display transactions among the messages.
--
-- Files and what they model:
--   Prelude/        shared helpers: Boolean tests, lists, slices, bits, ASCII strings.
--   Checksum/       src/ip_commandmic/checksums.py: sum8, xor8, crc16, CRC16_ALGORITHMS.
--   Models/         src/ip_commandmic/models.py: Direction, MessageKind, Message, body.
--   Errors          the ValueErrors of the encoders, as values of a result type.
--   Controls/       src/ip_commandmic/controls.py: key tables and wire values.
--   Display/Tables  the constant tables of src/ip_commandmic/display.py.
--   Display/Buffer/ DisplayBuffer with its projections, to_metadata and to_dict.
--   Display/State/  DisplayStateModel.consume as a function from a state to a state and
--                   an event; a rejected payload is the value `invalid_payload`.
--   Display/Listing the listings of bit and blink controls.
--   Protocol/Stuffing, Frame, Readings, Classify, Stream, Encode
--                   src/ip_commandmic/protocol.py: unstuff_bytes and stuff_bytes;
--                   build_frame and decode_wire_frame; the chain of branches of
--                   classify_message; classify_message; parse_stream and iter_messages;
--                   the encode_* functions.
--   Capture/        src/ip_commandmic/pcap.py: parse_rtp, _reassemble_direction,
--                   _timestamp_at_offset and a group's round of decode_capture.
--   Audio/          src/ip_commandmic/audio.py: BufferedMicrophoneSource, where each method
--                   holds its lock throughout and is one step, and RadioAudioJitterBuffer.
--   Emulator/       src/ip_commandmic/emulator.py: the constant frames (Frames), what a handler
--                   does to the outside (Actions), EmulatorConfig and the tests of its
--                   __post_init__ (Config, Guards), the display tails and the diagnostics (Tails,
--                   Scans), the radio's panel and its keys (Panel), _stable_startup (Startup), the
--                   loop of a session (Sessions), the handlers of _verified_mic_session (Mic) and
--                   _verified_radio_session (Radio), interactive PTT (Transmit) and keys (Keys),
--                   the loops of the two RTP senders, the recorder of
--                   VerifiedRadioUdpProtocol (Udp) and the radio's audio at
--                   VerifiedMicUdpProtocol (Udp/Gate).
--   Tests/          runs of the definitions and the theorems at concrete inputs.
-- The modules below a component (Laws, RoundTrip, Lossless, ...) hold its proofs.
--
-- Conventions. A byte is a natural number below 256 (IsBytes) and a str is its code
-- points. A CRC register is kept in 16 bits with the masks of the source. A metadata
-- dictionary is a list of pairs in its order of insertion. Optional direction arguments
-- are taken after Direction.coerce. Keyword defaults are arguments. str.lower and strip are
-- those of ASCII, the only text that the key names hold.
--
-- A handler of the emulator is a function from its state to the new state and the list of what
-- it does, in order; `none` in place of them is a Python exception. A float setting is in
-- thousandths and a delay in microseconds. What waiting may end with (an acknowledgement, a
-- lost connection) is an argument. A write to a connection that fails is not modelled.
--
-- The loop of parse_stream runs on fuel: one round more than the stream has bytes. A round
-- that goes on moves the cursor forward, so that fuel is enough; the theorems on
-- parse_stream state that it returns. iter_messages is taken with all that it yields.
--
-- Not modelled: of the emulator the sockets, the tasks' cancellation, the audit log's format,
-- scripted transmission and the rest of the UDP protocols; the conformance runner, the front ends and the
-- capture readers (sockets, threads, clocks, files), audio devices and codecs, and the
-- Wireshark dissector (Lua).
pub mod Prelude
pub mod Checksum
pub mod Models
pub mod Errors
pub mod Controls
pub mod Display
pub mod Protocol
pub mod Capture
pub mod Audio
pub mod Emulator
pub mod Tests
