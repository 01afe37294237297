-- ===== src/Canary/Handler/Examples.antt =====
-- The theorems on `handleTCP`, at a connection on a small network.
use honeytrap.Base.{ℕ, ◌+◌, ◌≡◌, ◌≢◌, refl, arith, false, List, [], ◌∷◌, some, Outcome, ok}
use honeytrap.Net.Ip.{ipv4, to4, ip_equal}
use honeytrap.Wire.Ethernet
use honeytrap.Wire.Ipv4
use honeytrap.Wire.Tcp
use honeytrap.Wire.Tcp.Marshal as TcpMarshal
use honeytrap.Wire.Tcp.{syn, ack, rst, psh, has_flag}
use honeytrap.Canary.Checksum.{update_tcp_checksum}
use honeytrap.Canary.State.{TcpState, listen, established, syn_received}
use honeytrap.Canary.Send.{Network, frame, arp_get}
use honeytrap.Canary.Handler.{Work, process, send, socket_write, socket_flush}
use honeytrap.Canary.Handler.Moves.{Move, process-Move}
use honeytrap.Canary.Handler.Segments

abbrev net : Network
net = record {
  ac = record { ip = ipv4 10 0 0 1; hardware_address = 1 ∷ 2 ∷ 3 ∷ 4 ∷ 5 ∷ 6 ∷ [] } ∷ [];
  rt = [];
  hardware = some (7 ∷ 8 ∷ 9 ∷ 10 ∷ 11 ∷ 12 ∷ []);
}

-- A connection in LISTEN with the initial sequence number `n`.
abbrev listening : ℕ → TcpState
listening n = record {
  src_ip = ipv4 10 0 0 1;
  src_port = 40000;
  dest_ip = ipv4 10 0 0 2;
  dest_port = 23;
  id = 7;
  state = listen;
  send_unacknowledged = 0;
  send_next = 0;
  initial_send_sequence_number = n;
  recv_next = 0;
  receive_window = 65535;
  t = 0;
}

abbrev fresh : TcpState → Work
fresh s = record { state = s; frames = []; actions = []; removed = false }

-- A segment from the peer with the given control bits, acknowledgment and payload.
abbrev segment : ℕ → ℕ → List ℕ → Tcp.Header
segment flags number payload = record {
  source = 40000;
  destination = 23;
  seq_num = 100;
  ack_num = number;
  data_offset = 5;
  reserved = 0;
  ecn = 0;
  ctrl = flags;
  window = 1024;
  checksum = 0;
  urgent = 0;
  options = [];
  padding = [];
  payload = payload;
}

abbrev bytes_of : Outcome (List ℕ) → List ℕ
bytes_of (ok b) = b
bytes_of _ = []

abbrev answer : ℕ → List ℕ
answer n = bytes_of (frame net (Segments.primed (segment syn 0 []) (listening n)) [] (syn + ack))

answer_sent :
    frame net (Segments.primed (segment syn 0 []) (listening 5)) [] (syn + ack) ≡ ok (answer 5)
unfolding frame update_tcp_checksum TcpMarshal.marshal Ipv4.marshal Ethernet.marshal arp_get to4
    ip_equal
answer_sent = refl

abbrev confirmation : ℕ → Tcp.Header
confirmation n = segment ack n []

confirmation-IsBareAck : (n : ℕ) → Segments.IsBareAck (confirmation n)
confirmation-IsBareAck n = record {
  has_ack = refl;
  no_syn = refl;
  no_rst = refl;
  no_fin = refl;
  no_psh = refl;
  no_payload = refl;
}

handshake_example :
    (w1 : Work) × (w2 : Work) × (process net (segment syn 0 []) (fresh (listening 5)) ≡ ok w1)
    × (process net (confirmation 7) w1 ≡ ok w2)
    × (w1.state.state ≡ syn_received)
    × (w2.state.state ≡ established)
handshake_example =
    Segments.handshake net (segment syn 0 []) (confirmation 7) (fresh (listening 5)) (answer 5) refl
      (refl) answer_sent (confirmation-IsBareAck 7) refl (omega arith)

-- Both of the last two initial numbers behave as the largest but one does here.
abbrev last_but_one : ℕ
last_but_one = 4294967294

answer_sent_late :
    frame net (Segments.primed (segment syn 0 []) (listening 4294967294)) [] (syn + ack)
    ≡ ok (answer 4294967294)
unfolding frame update_tcp_checksum TcpMarshal.marshal Ipv4.marshal Ethernet.marshal arp_get to4
    ip_equal
answer_sent_late = refl

abbrev stuck : Work
stuck = Segments.answered (segment syn 0 []) (answer 4294967294) (fresh (listening 4294967294))

handshake_wraps_example : syn_received ≢ established
handshake_wraps_example =
    Segments.handshake_wraps net (segment syn 0 []) (confirmation 0) (fresh (listening 4294967294))
      stuck stuck (answer 4294967294) refl refl answer_sent_late (omega arith) (omega arith)
      (unfold process send frame update_tcp_checksum TcpMarshal.marshal Ipv4.marshal
          Ethernet.marshal arp_get to4 ip_equal in
        refl)
      (unfold process in refl)

abbrev open_connection : TcpState
open_connection = record (listening 5) {
  state = established;
  send_unacknowledged = 5;
  send_next = 7;
  recv_next = 101;
}

process-reset_ignored_example :
    process net (segment rst 0 []) (fresh open_connection) ≡ ok (fresh open_connection)
process-reset_ignored_example =
    Segments.process-reset_ignored net (segment rst 0 []) (fresh open_connection) refl refl
      (ground arith) (ground arith) (ground arith) (ground arith)

process-Move_example : Move established established
process-Move_example =
    process-Move net (segment rst 0 []) (fresh open_connection) (fresh open_connection)
      (unfold process in refl)

abbrev login_line : Tcp.Header
login_line = segment (ack + psh) 6 (114 ∷ 111 ∷ 111 ∷ 116 ∷ 10 ∷ [])

abbrev line_ack : List ℕ
line_ack = bytes_of (frame net (Segments.after_data login_line open_connection) [] ack)

process-data_example :
    process net login_line (fresh open_connection)
    ≡ ok (record (fresh open_connection) {
      state = record (Segments.after_data login_line open_connection) { id = 8 };
      frames = line_ack ∷ [];
      actions = socket_write login_line.payload ∷ socket_flush ∷ [];
    })
process-data_example =
    Segments.process-data net login_line (fresh open_connection) line_ack refl refl refl refl refl
      (omega arith)
      (unfold frame update_tcp_checksum TcpMarshal.marshal Ipv4.marshal Ethernet.marshal arp_get to4
          ip_equal in
        refl)
