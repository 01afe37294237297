-- ===== src/Canary/Handler/Segments.antt =====
-- What `handleTCP` does with particular segments.
use honeytrap.Base.{
  ℕ, ◌+◌, ◌≤◌, ◌<◌, ◌≡◌, ◌≢◌, refl, arith, true, false, List, [], ◌∷◌, ◌++◌, length, if◌then◌else◌,
  ok, >>=-eq-ok,
}
use honeytrap.Base.Bytes.{u32}
use honeytrap.Wire.Tcp
use honeytrap.Wire.Tcp.{syn, ack, rst, fin, psh, has_flag}
use honeytrap.Canary.State.{TcpState, listen, syn_received, established, time_wait, close_wait}
use honeytrap.Canary.Send.{Network, frame}
use honeytrap.Canary.Handler.{
  Work, Action, process, send, acceptable, tcp_knock, start_handler, socket_write, socket_flush,
  socket_close, established_stages, act, in_state, data_stage, fin_stage, knock_stage, advance_una,
  advance_wait,
}

-- The TCP knocks among the actions.
abbrev pub knocks : List Action → ℕ
knocks [] = 0
knocks (tcp_knock p ∷ as') = 1 + knocks as'
knocks (socket_write b ∷ as') = knocks as'
knocks (socket_flush ∷ as') = knocks as'
knocks (socket_close ∷ as') = knocks as'
knocks (start_handler p ∷ as') = knocks as'

knocks-append : (xs ys : List Action) → knocks (xs ++ ys) ≡ knocks xs + knocks ys
knocks-append [] ys = omega arith
knocks-append (tcp_knock p ∷ xs) ys = omega (arith, knocks-append xs ys)
knocks-append (socket_write b ∷ xs) ys = knocks-append xs ys
knocks-append (socket_flush ∷ xs) ys = knocks-append xs ys
knocks-append (socket_close ∷ xs) ys = knocks-append xs ys
knocks-append (start_handler p ∷ xs) ys = knocks-append xs ys

data_stage-knocks :
    (net : Network) (hdr : Tcp.Header) (w w' : Work)
    → data_stage net hdr w ≡ ok w'
    → knocks w'.actions ≡ knocks w.actions
unfolding data_stage send
data_stage-knocks net hdr w w' h = ground (
  arith,
  knocks-append w.actions (socket_write hdr.payload ∷ []),
  knocks-append (w.actions ++ (socket_write hdr.payload ∷ [])) (socket_flush ∷ []),
)

fin_stage-knocks :
    (net : Network) (hdr : Tcp.Header) (w w' : Work)
    → fin_stage net hdr w ≡ ok w'
    → knocks w'.actions ≡ knocks w.actions
unfolding fin_stage send
fin_stage-knocks net hdr w w' h = ground (
  arith,
  knocks-append w.actions (socket_flush ∷ []),
  knocks-append (w.actions ++ (socket_flush ∷ [])) (socket_close ∷ []),
)

stages-knocks :
    (net : Network) (hdr : Tcp.Header) (w w' : Work)
    → has_flag hdr syn ≡ false
    → established_stages net hdr w ≡ ok w'
    → knocks w'.actions ≡ knocks w.actions
unfolding established_stages advance_una advance_wait knock_stage
stages-knocks net hdr w w' s h =
    let (taken, d, f) = >>=-eq-ok (data_stage net hdr (advance_wait (advance_una hdr w))) _ h in
    ground (
      arith,
      data_stage-knocks net hdr (advance_wait (advance_una hdr w)) taken d,
      fin_stage-knocks net hdr (knock_stage hdr taken) w',
    )

-- No segment makes the handler report a TCP knock: every segment with SYN returns before the stage
-- that would.
pub process-knocks :
    (net : Network) (hdr : Tcp.Header) (w w' : Work)
    → process net hdr w ≡ ok w'
    → knocks w'.actions ≡ knocks w.actions
unfolding process send
process-knocks net hdr w w' h = ground (
  arith,
  stages-knocks net hdr w w',
  stages-knocks net hdr (in_state time_wait w) w',
  stages-knocks net hdr (record w { removed = true }) w',
  stages-knocks net hdr (act (start_handler hdr.destination) (in_state established w)) w',
  knocks-append w.actions (start_handler hdr.destination ∷ []),
)

-- A RST without ACK, in any state but LISTEN, SYN-RECEIVED, CLOSE-WAIT and TIME-WAIT, changes nothing:
-- an established connection stays established.
pub process-reset_ignored :
    (net : Network) (hdr : Tcp.Header) (w : Work)
    → has_flag hdr rst ≡ true
    → has_flag hdr ack ≡ false
    → w.state.state ≢ listen
    → w.state.state ≢ syn_received
    → w.state.state ≢ close_wait
    → w.state.state ≢ time_wait
    → process net hdr w ≡ ok w
unfolding process
process-reset_ignored net hdr w r a p q s t = ground arith

-- A connection in LISTEN whose SYN was answered by the frame `f`.
abbrev pub primed : Tcp.Header → TcpState → TcpState
primed hdr s = record s {
  send_unacknowledged = s.initial_send_sequence_number;
  send_next = u32 (s.initial_send_sequence_number + 1);
  recv_next = u32 (hdr.seq_num + 1);
}

abbrev pub answered : Tcp.Header → List ℕ → Work → Work
answered hdr f w = record w {
  state = record (primed hdr w.state) {
    id = u32 (w.state.id + 1);
    send_next = u32 (u32 (w.state.initial_send_sequence_number + 1) + 1);
    state = syn_received;
  };
  frames = w.frames ++ (f ∷ []);
}

listen_answers :
    (net : Network) (hdr : Tcp.Header) (w : Work) (f : List ℕ)
    → w.state.state ≡ listen
    → has_flag hdr syn ≡ true
    → frame net (primed hdr w.state) [] (syn + ack) ≡ ok f
    → process net hdr w ≡ ok (answered hdr f w)
unfolding process send
listen_answers net hdr w f l s e = ground arith

-- A segment that carries an acknowledgment and nothing else.
pub record IsBareAck (hdr : Tcp.Header) : Type 0 where
  pub has_ack : has_flag hdr ack ≡ true
  pub no_syn : has_flag hdr syn ≡ false
  pub no_rst : has_flag hdr rst ≡ false
  pub no_fin : has_flag hdr fin ≡ false
  pub no_psh : has_flag hdr psh ≡ false
  pub no_payload : hdr.payload ≡ []

confirmed_by :
    (net : Network) (hdr : Tcp.Header) (w : Work)
    → w.state.state ≡ syn_received
    → acceptable hdr w.state ≡ true
    → IsBareAck hdr
    → (w' : Work) × (process net hdr w ≡ ok w') × (w'.state.state ≡ established)
unfolding process send established_stages advance_una advance_wait data_stage knock_stage fin_stage
confirmed_by net hdr w e a b = (
  act (socket_write hdr.payload) (
      act (start_handler hdr.destination) (record w {
        state = record (w.state) {
          state = established;
          send_unacknowledged = hdr.ack_num;
          recv_next = u32 (w.state.recv_next + 0);
        };
      })),
  ground arith,
  refl,
)

-- A SYN to a connection in LISTEN, where the answer can be sent, followed by a bare acknowledgment of
-- the initial sequence number plus two establishes the connection, if that sum fits 32 bits.
pub handshake :
    (net : Network) (hdr hdr' : Tcp.Header) (w : Work) (f : List ℕ)
    → w.state.state ≡ listen
    → has_flag hdr syn ≡ true
    → frame net (primed hdr w.state) [] (syn + ack) ≡ ok f
    → IsBareAck hdr'
    → hdr'.ack_num ≡ w.state.initial_send_sequence_number + 2
    → w.state.initial_send_sequence_number + 2 < 4294967296
    → (w1 : Work) × (w2 : Work) × (process net hdr w ≡ ok w1)
      × (process net hdr' w1 ≡ ok w2)
      × (w1.state.state ≡ syn_received)
      × (w2.state.state ≡ established)
handshake net hdr hdr' w f l s e b a fits =
    let (w2, second, done) = confirmed_by net hdr' (answered hdr f w) refl (ground arith) b in
    (answered hdr f w, w2, listen_answers net hdr w f l s e, second, refl, done)

refused_by :
    (net : Network) (hdr : Tcp.Header) (w w' : Work)
    → w.state.state ≡ syn_received
    → acceptable hdr w.state ≡ false
    → process net hdr w ≡ ok w'
    → w'.state.state ≢ established
unfolding process
refused_by net hdr w w' e a h = ground arith

never_acceptable :
    (hdr hdr' : Tcp.Header) (w w1 : Work) (f : List ℕ)
    → 4294967294 ≤ w.state.initial_send_sequence_number
    → w.state.initial_send_sequence_number < 4294967296
    → w1 ≡ answered hdr f w
    → (w1.state.state ≡ syn_received) × (acceptable hdr' w1.state ≡ false)
never_acceptable hdr hdr' w w1 f lo hi e = (ground arith, ground arith)

-- The numbers are compared without regard to their wrapping: with either of the last two initial
-- sequence numbers no acknowledgment establishes the connection, whatever segment follows.
pub handshake_wraps :
    (net : Network) (hdr hdr' : Tcp.Header) (w w1 w2 : Work) (f : List ℕ)
    → w.state.state ≡ listen
    → has_flag hdr syn ≡ true
    → frame net (primed hdr w.state) [] (syn + ack) ≡ ok f
    → 4294967294 ≤ w.state.initial_send_sequence_number
    → w.state.initial_send_sequence_number < 4294967296
    → process net hdr w ≡ ok w1
    → process net hdr' w1 ≡ ok w2
    → w2.state.state ≢ established
handshake_wraps net hdr hdr' w w1 w2 f l s e lo hi p q =
    let e1 : w1 ≡ answered hdr f w = ground (arith, listen_answers net hdr w f l s e) in
    let (waits, refused) = never_acceptable hdr hdr' w w1 f lo hi e1 in
    refused_by net hdr' w1 w2 waits refused q

-- A connection behind the acknowledgment and the payload of a segment.
abbrev pub after_data : Tcp.Header → TcpState → TcpState
after_data hdr s = record s {
  send_unacknowledged = if acceptable hdr s then hdr.ack_num else s.send_unacknowledged;
  recv_next = u32 (s.recv_next + length hdr.payload);
}

-- In ESTABLISHED a segment with ACK and a payload, without SYN, RST and FIN, where the acknowledgment
-- can be sent: the payload goes to the socket, which is flushed if PSH is set, the receive number
-- counts the payload, one frame acknowledges it, and the state stays.
pub process-data :
    (net : Network) (hdr : Tcp.Header) (w : Work) (f : List ℕ)
    → w.state.state ≡ established
    → has_flag hdr ack ≡ true
    → has_flag hdr syn ≡ false
    → has_flag hdr rst ≡ false
    → has_flag hdr fin ≡ false
    → 0 < length hdr.payload
    → frame net (after_data hdr w.state) [] ack ≡ ok f
    → process net hdr w
      ≡ ok (record w {
        state = record (after_data hdr w.state) { id = u32 (w.state.id + 1) };
        frames = w.frames ++ (f ∷ []);
        actions =
            if has_flag hdr psh
            then (w.actions ++ (socket_write hdr.payload ∷ [])) ++ (socket_flush ∷ [])
            else w.actions ++ (socket_write hdr.payload ∷ []);
      })
unfolding process send established_stages advance_una advance_wait data_stage knock_stage fin_stage
process-data net hdr w f e a s r n l k = ground arith
