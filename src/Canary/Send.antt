-- ===== src/Canary/Send.antt =====
-- `send` of canary_linux.go, with `ARPCache.Get` of arpcache.go: the Ethernet frame that a segment
-- becomes. The ring buffer in which the frame waits (github.com/glycerine/rbuf) and epoll stand
-- outside: a frame that `send` queues is a value here.
use Prim.Native.Nat.{bit_and}
use honeytrap.Base.{
  ℕ, ◌+◌, ◌-◌, ◌*◌, ◌/◌, ◌%◌, Bool, true, false, ◌&&◌, List, [], ◌∷◌, ◌++◌, length, ◌==◌,
  if◌then◌else◌, Option, none, some, Outcome, ok, panic, ◌>>=◌, at,
}
use honeytrap.Base.Bytes.{u32, u16}
use honeytrap.Base.Buffer.{store_at}
use honeytrap.Net.Ip.{IpAddress, ipv4, to4, ip_equal}
use honeytrap.Wire.Ethernet
use honeytrap.Wire.Ipv4
use honeytrap.Wire.Tcp
use honeytrap.Wire.Tcp.Marshal as TcpMarshal
use honeytrap.Canary.Checksum.{fold_sum, update_tcp_checksum}
use honeytrap.Canary.State.{TcpState}

pub record ArpEntry : Type 0 where
  pub ip : IpAddress
  pub hardware_address : List ℕ

pub record Route : Type 0 where
  pub gateway : IpAddress
  pub destination_ip : List ℕ
  pub destination_mask : List ℕ

-- What `send` reads of the canary: the ARP cache, the routes, and the address of the first interface.
pub record Network : Type 0 where
  pub ac : List ArpEntry
  pub rt : List Route
  pub hardware : Option (List ℕ)

-- `ARPCache.Get`.
unfoldable pub arp_get : List ArpEntry → IpAddress → Option ArpEntry
arp_get [] ip = none
arp_get (a ∷ more) ip = let rest = arp_get more ip in if ip_equal a.ip ip then some a else rest

-- `Destination.Contains(dst)`: the network and the address agree under the mask, byte by byte.
unfoldable pub under_mask : List ℕ → List ℕ → List ℕ → Bool
under_mask (n ∷ ns) (m ∷ ms) (x ∷ xs) = bit_and n m == bit_and x m && under_mask ns ms xs
under_mask [] [] [] = true
under_mask _ _ _ = false

unfoldable pub contains : Route → IpAddress → Bool
unfolding under_mask
contains r dst = elim (to4 r.destination_ip) [
  | none ↦ false
  | some n ↦ elim (to4 dst) [ none ↦ false | some x ↦ under_mask n r.destination_mask x ]
]

-- The loop over the routes: the first that contains the address gives the gateway's entry.
unfoldable pub route_get : List ArpEntry → List Route → IpAddress → Option ArpEntry
route_get ac [] dst = none
route_get ac (r ∷ rs) dst =
    let rest = route_get ac rs dst in if contains r dst then arp_get ac r.gateway else rest

-- `ae`; nil makes `ae.HardwareAddress` panic.
unfoldable pub next_hop : Network → IpAddress → Outcome ArpEntry
next_hop net dst = elim (arp_get net.ac dst) [
  | some a ↦ ok a
  | none ↦ elim (route_get net.ac net.rt dst) [ none ↦ panic | some a ↦ ok a ]
]

unfoldable pub first_interface : Network → Outcome (List ℕ)
first_interface net = elim net.hardware [ none ↦ panic | some h ↦ ok h ]

-- `th` and `iph`.
abbrev pub segment_header : TcpState → List ℕ → ℕ → Tcp.Header
segment_header s payload flags = record {
  source = s.dest_port;
  destination = s.src_port;
  seq_num = s.send_next;
  ack_num = s.recv_next;
  data_offset = 0;
  reserved = 0;
  ecn = 0;
  ctrl = flags;
  window = s.receive_window;
  checksum = 0;
  urgent = 0;
  options = [];
  padding = [];
  payload = payload;
}

abbrev pub packet_header : TcpState → List ℕ → Ipv4.Header
packet_header s segment = record {
  version = 4;
  len = 20;
  tos = 0;
  total_len = 20 + length segment;
  id = s.id;
  flags = 0;
  frag_off = 0;
  ttl = 128;
  protocol = 6;
  checksum = 0;
  src = s.dest_ip;
  dst = s.src_ip;
  options = [];
  payload = [];
}

-- The loop over the 20 bytes of the IP header, without the checksum's own.
unfoldable pub add_header_words : ℕ → ℕ → List ℕ → ℕ
add_header_words i acc (a ∷ b ∷ r) =
    add_header_words (i + 2) (if i == 10 then acc else u32 (u32 (acc + a * 256) + b)) r
add_header_words i acc _ = acc

-- `csum = uint32(^uint16(csum))`, and the two bytes that it is stored in.
unfoldable pub store_header_checksum : List ℕ → List ℕ
unfolding add_header_words fold_sum
store_header_checksum header =
    let csum = 65535 - u16 (fold_sum 3 (add_header_words 0 0 header)) in
    store_at 11 (csum % 256) (store_at 10 (csum / 256 % 256) header)

-- The frame. The checksum loop reads the first 20 bytes of the packet, which are all that
-- `iph.Marshal` writes for a header with no options.
unfoldable pub frame : Network → TcpState → List ℕ → ℕ → Outcome (List ℕ)
unfolding store_header_checksum next_hop first_interface
frame net s payload flags = do
  let data1 = (TcpMarshal.marshal (segment_header s payload flags)).0
  header ← Ipv4.marshal (packet_header s data1)
  segment ← update_tcp_checksum s.dest_ip s.src_ip data1
  let header' = store_header_checksum header
  d0 ← at header' 16
  d1 ← at header' 17
  d2 ← at header' 18
  d3 ← at header' 19
  ae ← next_hop net (ipv4 d0 d1 d2 d3)
  hardware ← first_interface net
  let ef : Ethernet.Frame = record {
    source = hardware;
    destination = ae.hardware_address;
    ether_type = 0x0800;
    payload = [];
  }
  ok (Ethernet.marshal ef ++ (header' ++ segment))
