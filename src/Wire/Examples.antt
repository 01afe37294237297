-- ===== src/Wire/Examples.antt =====
-- The theorems on the packet formats, at concrete packets.
use honeytrap.Base.{
  ℕ, ◌-◌, ◌≤◌, ◌<◌, ◌≡◌, ◌↔◌, refl, arith, List, [], ◌∷◌, ◌++◌, none, ok, err, panic, inl, inr, ◌⊎◌,
  header_too_short,
}
use honeytrap.Base.Buffer.{zeros}
use honeytrap.Net.Ip.{ipv4}
use honeytrap.Wire.Udp
use honeytrap.Wire.Arp
use honeytrap.Wire.Icmp
use honeytrap.Wire.Ethernet
use honeytrap.Wire.Ipv4
use honeytrap.Wire.Ipv4.Laws as Ipv4Laws
use honeytrap.Wire.Tcp
use honeytrap.Wire.Tcp.Marshal as TcpMarshal
use honeytrap.Wire.Tcp.RoundTrip
use honeytrap.Wire.Tcp.Panics

abbrev dns_query : Udp.Header
dns_query = record {
  source = 40000;
  destination = 53;
  len = 11;
  checksum = 7;
  payload = 1 ∷ 2 ∷ 3 ∷ [];
}

abbrev dns_bytes : List ℕ
dns_bytes = 156 ∷ 64 ∷ 0 ∷ 53 ∷ 0 ∷ 11 ∷ 0 ∷ 7 ∷ 1 ∷ 2 ∷ 3 ∷ []

abbrev arp_frame : Arp.Frame
arp_frame = record {
  hardware_type = 1;
  protocol_type = 2048;
  hardware_size = 6;
  protocol_size = 4;
  opcode = 1;
  sender_mac = 1 ∷ 2 ∷ 3 ∷ 4 ∷ 5 ∷ 6 ∷ [];
  sender_ip = 10 ∷ 0 ∷ 0 ∷ 1 ∷ [];
  target_mac = 0 ∷ 0 ∷ 0 ∷ 0 ∷ 0 ∷ 0 ∷ [];
  target_ip = 10 ∷ 0 ∷ 0 ∷ 2 ∷ [];
}

arp_cases_example :
    (28 ≤ 2 → (f : Arp.Frame) × (Arp.unmarshal (1 ∷ 2 ∷ []) ≡ ok f))
    × (2 < 28 → Arp.unmarshal (1 ∷ 2 ∷ []) ≡ err header_too_short)
arp_cases_example = Arp.arp_cases (1 ∷ 2 ∷ [])

abbrev echo_bytes : List ℕ
echo_bytes = 8 ∷ 0 ∷ 1 ∷ 2 ∷ 0 ∷ 5 ∷ 0 ∷ 9 ∷ 77 ∷ []

abbrev echo : Icmp.Message
echo = record { type_code = 2048; checksum = 258; id = 5; seq = 9 }

abbrev ether_frame : Ethernet.Frame
ether_frame = record {
  source = 1 ∷ 2 ∷ 3 ∷ 4 ∷ 5 ∷ 6 ∷ [];
  destination = 7 ∷ 8 ∷ 9 ∷ 10 ∷ 11 ∷ 12 ∷ [];
  ether_type = 2048;
  payload = 69 ∷ 0 ∷ [];
}

abbrev ip_header : Ipv4.Header
ip_header = record {
  version = 4;
  len = 24;
  tos = 0;
  total_len = 27;
  id = 9;
  flags = 2;
  frag_off = 0;
  ttl = 64;
  protocol = 6;
  checksum = 0;
  src = ipv4 10 0 0 1;
  dst = ipv4 10 0 0 2;
  options = 1 ∷ 1 ∷ 1 ∷ 0 ∷ [];
  payload = [];
}

packet_round_trip_example :
    (bs : List ℕ) × (Ipv4.marshal ip_header ≡ ok bs)
    × (Ipv4.unmarshal (bs ++ (5 ∷ 6 ∷ 7 ∷ []))
        ≡ ok (record ip_header { payload = 1 ∷ 1 ∷ 1 ∷ 0 ∷ 5 ∷ 6 ∷ 7 ∷ [] }))
packet_round_trip_example =
    Ipv4Laws.packet_round_trip ip_header (5 ∷ 6 ∷ 7 ∷ [])
      (record {
        version_four = refl;
        len_counts = refl;
        total_counts = refl;
        options_words = refl;
        options_fit = omega arith;
        tos_fits = omega arith;
        total_fits = omega arith;
        id_fits = omega arith;
        flags_fit = omega arith;
        frag_off_fits = omega arith;
        ttl_fits = omega arith;
        protocol_fits = omega arith;
        checksum_fits = omega arith;
      })
      (10, 0, 0, 1, refl) (10, 0, 0, 2, refl)

abbrev syn_segment : Tcp.Header
syn_segment = record {
  source = 40000;
  destination = 23;
  seq_num = 305419896;
  ack_num = 0;
  data_offset = 0;
  reserved = 0;
  ecn = 1;
  ctrl = 2;
  window = 65535;
  checksum = 0;
  urgent = 0;
  options =
      record { option_type = 2; option_length = 4; option_data = 5 ∷ 180 ∷ [] }
      ∷ record { option_type = 1; option_length = 1; option_data = [] }
      ∷ [];
  padding = [];
  payload = 104 ∷ 105 ∷ [];
}

segment_round_trip_example :
    Tcp.unmarshal (TcpMarshal.marshal syn_segment).0
    ≡ ok (
      record syn_segment {
        data_offset = RoundTrip.words syn_segment;
        checksum = 0;
        options =
            syn_segment.options
            ++ RoundTrip.end_options
                (RoundTrip.fill (TcpMarshal.option_length syn_segment.options));
        padding = zeros (RoundTrip.fill (TcpMarshal.option_length syn_segment.options) - 1);
      },
      none,
    )
segment_round_trip_example = RoundTrip.segment_round_trip syn_segment (record {
  source_fits = omega arith;
  destination_fits = omega arith;
  seq_fits = omega arith;
  ack_fits = omega arith;
  reserved_zero = refl;
  ecn_fits = omega arith;
  ctrl_fits = omega arith;
  window_fits = omega arith;
  urgent_fits = omega arith;
  options_formed =
      (inr (omega arith, omega arith, refl, omega arith), (inl (refl, refl, refl), tt));
  options_fit = unfold TcpMarshal.option_length in omega arith;
  padding_none = refl;
})

-- A segment of 20 bytes and one option byte, whose data offset is 24.
abbrev cut_segment : List ℕ
cut_segment =
    0 ∷ 1 ∷ 0 ∷ 2 ∷ 0 ∷ 0 ∷ 0 ∷ 0 ∷ 0 ∷ 0 ∷ 0 ∷ 0 ∷ 96 ∷ 2 ∷ 0 ∷ 0 ∷ 0 ∷ 0 ∷ 0 ∷ 0 ∷ 1 ∷ 1 ∷ 1 ∷ 2
    ∷ []

segment_panics_example :
    (Tcp.unmarshal cut_segment ≡ panic) ↔ ((24 < 20) ⊎ Panics.HasCutOption cut_segment)
segment_panics_example = Panics.segment_panics cut_segment

-- It does make the parser panic.
cut_segment-panics : Tcp.unmarshal cut_segment ≡ panic
cut_segment-panics = segment_panics_example.1 (
    inr (
      omega arith,
      omega arith,
      omega arith,
      Panics.nop refl (Panics.nop refl (Panics.nop refl (Panics.last (omega arith)))),
    ))

-- Twenty bytes that claim a total length of 19.
abbrev short_total : List ℕ
short_total =
    69 ∷ 0 ∷ 0 ∷ 19 ∷ 0 ∷ 0 ∷ 0 ∷ 0 ∷ 64 ∷ 6 ∷ 0 ∷ 0 ∷ 10 ∷ 0 ∷ 0 ∷ 1 ∷ 10 ∷ 0 ∷ 0 ∷ 2 ∷ []

packet_panics_example : (Ipv4.unmarshal short_total ≡ panic) ↔ ((20 ≤ 20) × (20 ≤ 20) × (19 < 20))
packet_panics_example = Ipv4Laws.packet_panics short_total

frame_panics_example : (Ethernet.parse (1 ∷ 2 ∷ []) ≡ panic) ↔ (2 < 14)
frame_panics_example = Ethernet.frame_panics (1 ∷ 2 ∷ [])
