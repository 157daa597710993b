-- ===== src/Capture/Rtp.antt =====
-- `RtpPacket` and `parse_rtp` of src/ip_commandmic/pcap.py.
pub mod Layout
use ip_commandmic.Prelude.{
  ℕ, ◌+◌, ◌-◌, ◌*◌, ◌/◌, ◌==◌, ltb, if◌then◌else◌, Bytes, Bool, not, ◌||◌, Option, none, some,
  bit_and, length, get_or, slice,
}
use ip_commandmic.Protocol.Frame.{from_bytes_big}

pub record RtpPacket : Type 0 where
  pub version : ℕ
  pub marker : Bool
  pub payload_type : ℕ
  pub sequence : ℕ
  pub timestamp : ℕ
  pub ssrc : ℕ
  pub header_length : ℕ
  pub payload : Bytes

module _ (data' : Bytes) where
  abbrev pub padding : Bool
  padding = not (bit_and (get_or data' 0 0) 0x20 == 0)

  abbrev pub extension : Bool
  extension = not (bit_and (get_or data' 0 0) 0x10 == 0)

  -- The header with its sources, before an extension.
  abbrev pub fixed_header : ℕ
  fixed_header = 12 + bit_and (get_or data' 0 0) 0x0F * 4

  -- The header with its extension, from the length of the fixed one.
  abbrev pub extended_header : ℕ → ℕ
  extended_header header = header + 4 + from_bytes_big (slice data' (header + 2) (header + 4)) * 4

  -- The length of the header; `none` if the data is too short for it.
  pub header_of : ℕ → Option ℕ
  header_of header =
      if ltb (length data') header
      then none
      else if not extension
      then some header
      else if ltb (length data') (header + 4)
      then none
      else if ltb (length data') (extended_header header)
      then none
      else some (extended_header header)

  -- The end of the payload behind the header.
  pub payload_end : ℕ → Option ℕ
  payload_end header =
      let padding_length = get_or data' (length data' - 1) 0 in
      if not padding
      then some (length data')
      else if (padding_length == 0) || ltb (length data' - header) padding_length
      then none
      else some (length data' - padding_length)

  abbrev pub packet : ℕ → ℕ → RtpPacket
  packet header end = record {
    version = 2;
    marker = not (bit_and (get_or data' 1 0) 0x80 == 0);
    payload_type = bit_and (get_or data' 1 0) 0x7F;
    sequence = from_bytes_big (slice data' 2 4);
    timestamp = from_bytes_big (slice data' 4 8);
    ssrc = from_bytes_big (slice data' 8 12);
    header_length = header;
    payload = slice data' header end;
  }

  pub packet_until : ℕ → Option ℕ → Option RtpPacket
  packet_until header none = none
  packet_until header (some end) = some (packet header end)

  pub packet_behind : Option ℕ → Option RtpPacket
  unfolding packet_until payload_end
  packet_behind none = none
  packet_behind (some header) = packet_until header (payload_end header)

  unfoldable pub parse_rtp : Option RtpPacket
  unfolding packet_behind header_of
  parse_rtp =
      if ltb (length data') 12 || not (get_or data' 0 0 / 64 == 2)
      then none
      else packet_behind (header_of fixed_header)
