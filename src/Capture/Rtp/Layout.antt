-- ===== src/Capture/Rtp/Layout.antt =====
-- Where the parts of an accepted RTP packet lie in the datagram.
use mathlib.Core.Path.{subst}
use ip_commandmic.Prelude.{
  ℕ, ◌+◌, ◌-◌, ◌/◌, ◌==◌, ltb, not, ◌||◌, ◌≤◌, ◌≡◌, refl, sym, arith, ap, Bytes, Bool, true, false,
  Option, none, some, length, length-take, length-drop, get_or, take, drop, if◌then◌else◌,
}
use ip_commandmic.Capture.Rtp.{
  RtpPacket, padding, fixed_header, header_of, payload_end, packet, packet_until, packet_behind,
  parse_rtp,
}

-- The last byte of a datagram with the padding flag, and otherwise nothing.
abbrev pub padding_of : Bytes → ℕ
padding_of data' = if padding data' then get_or data' (length data' - 1) 0 else 0

-- The packet cuts the datagram, without a rest, into the header, the payload and the padding.
pub record Divides (data' : Bytes) (p : RtpPacket) : Type 0 where
  pub header : 12 ≤ p.header_length
  pub whole : p.header_length + length p.payload + padding_of data' ≡ length data'
  pub payload : p.payload ≡ take (length p.payload) (drop p.header_length data')

module _ (data' : Bytes) where
  header_of-bounds :
      (start header : ℕ)
      → header_of data' start ≡ some header
      → (start ≤ header) × (header ≤ length data')
  unfolding header_of
  header_of-bounds start header e = ground arith

  payload_end-bounds :
      (header end : ℕ)
      → header ≤ length data'
      → payload_end data' header ≡ some end
      → (header ≤ end) × (end + padding_of data' ≡ length data')
  unfolding payload_end
  payload_end-bounds header end fits e = ground arith

  packet-Divides :
      (header end : ℕ)
      → 12 ≤ header
      → header ≤ end
      → end + padding_of data' ≡ length data'
      → Divides data' (packet data' header end)
  packet-Divides header end long order fits =
      let size : length (take (end - header) (drop header data')) ≡ end - header =
        omega (arith, length-take (end - header) (drop header data'), length-drop header data') in
      record {
        header = long;
        whole = omega (arith, size, fits);
        payload = ap (λ k. take k (drop header data')) (sym size);
      }

  some-injective : (a b : RtpPacket) → some a ≡ some b → a ≡ b
  some-injective a b e = cc

  packet_until-Divides :
      (p : RtpPacket) (header : ℕ) (end : Option ℕ)
      → 12 ≤ header
      → header ≤ length data'
      → payload_end data' header ≡ end
      → packet_until data' header end ≡ some p
      → Divides data' p
  unfolding packet_until
  packet_until-Divides p header none long fits found e = cc
  packet_until-Divides p header (some end) long fits found e =
      let bounds = payload_end-bounds header end fits found in
      subst (Divides data') (some-injective (packet data' header end) p e)
        (packet-Divides header end long bounds.0 bounds.1)

  packet_behind-Divides :
      (p : RtpPacket) (header : Option ℕ)
      → header_of data' (fixed_header data') ≡ header
      → packet_behind data' header ≡ some p
      → Divides data' p
  unfolding packet_behind
  packet_behind-Divides p none found e = cc
  packet_behind-Divides p (some header) found e =
      let bounds = header_of-bounds (fixed_header data') header found in
      packet_until-Divides p header (payload_end data' header) (omega (arith, bounds.0)) bounds.1
        refl e

  -- An accepted datagram has its header, its payload and, if the flag is set, the padding that its
  -- last byte counts, one behind the other and nothing else; the header has at least 12 bytes.
  pub parse_rtp-Divides : (p : RtpPacket) → parse_rtp data' ≡ some p → Divides data' p
  parse_rtp-Divides p e = behind (refused (get_or data' 0 0)) (unfold parse_rtp in e)
    where
      refused : ℕ → Bool
      refused first = ltb (length data') 12 || not (first / 64 == 2)

      behind :
          (t : Bool)
          → (if t then none else packet_behind data' (header_of data' (fixed_header data')))
            ≡ some p
          → Divides data' p
      behind true e = cc
      behind false e = packet_behind-Divides p (header_of data' (fixed_header data')) refl e
