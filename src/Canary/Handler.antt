-- ===== src/Canary/Handler.antt =====
-- `handleTCP` of canary_linux.go. The mutex of a state is held over the whole call, so the state that
-- the call works on is passed along (`Work`) and put back at its end.
pub mod Moves
pub mod Segments
mod Examples
use honeytrap.Base.{
  ℕ, suc, ◌+◌, ◌≤◌, ◌<◌, Bool, true, false, not, ◌&&◌, ◌||◌, List, [], ◌∷◌, ◌++◌, length, leb, ltb,
  ◌==◌, if◌then◌else◌, Option, none, some, Outcome, ok, err, panic, ◌>>=◌, get_elem?, set, Error,
}
use honeytrap.Base.Bytes.{u32}
use honeytrap.Net.Ip.{IpAddress, ip_equal}
use honeytrap.Wire.Ethernet
use honeytrap.Wire.Ipv4
use honeytrap.Wire.Tcp
use honeytrap.Wire.Tcp.{syn, ack, rst, fin, psh, has_flag}
use honeytrap.Wire.Tcp.Checksum.{unmarshal_with_checksum}
use honeytrap.Canary.State.{
  SocketState, TcpState, Env, Table, closed, listen, syn_received, syn_sent, established, fin_wait1,
  fin_wait2, closing, time_wait, close_wait, last_ack, new_state,
}
use honeytrap.Canary.State
use honeytrap.Canary.Send.{Network, frame}

-- What a call does besides: to the socket of the state, to the protocol handler that is started, and
-- to the knock detector.
pub data Action : Type 0 where
  socket_write : List ℕ → Action
  socket_flush socket_close : Action
  start_handler : ℕ → Action
  tcp_knock : ℕ → Action

pub record Work : Type 0 where
  pub state : TcpState
  pub frames : List (List ℕ)
  pub actions : List Action
  pub removed : Bool

-- A stage of the handler ends with `return` or goes on.
pub data Flow : Type 0 where
  return go_on : Work → Flow

abbrev pub work_of : Flow → Work
work_of (return w) = w
work_of (go_on w) = w

abbrev pub in_state : SocketState → Work → Work
in_state x w = record w { state = record (w.state) { state = x } }

abbrev pub act : Action → Work → Work
act a w = record w { actions = w.actions ++ (a ∷ []) }

-- `c.send`, whose error the handler drops: without a frame nothing changes, with one the ID goes up.
unfoldable pub send : Network → List ℕ → ℕ → Work → Outcome Work
send net payload flags w = elim (frame net w.state payload flags) [
  | ok f ↦ ok (record w {
    state = record (w.state) { id = u32 (w.state.id + 1) };
    frames = w.frames ++ (f ∷ []);
  })
  | err e ↦ ok w
  | panic ↦ panic
]

-- LISTEN: a SYN is answered with SYN and ACK.
listen_stage : Network → Tcp.Header → SocketState → Work → Outcome Flow
listen_stage net hdr listen w =
    let s = w.state in
    let primed = record w {
      state = record s {
        send_unacknowledged = s.initial_send_sequence_number;
        send_next = u32 (s.initial_send_sequence_number + 1);
        recv_next = u32 (hdr.seq_num + 1);
      };
    } in
    let answered = (do
      sent ← send net [] (syn + ack) primed
      ok (
          return (record sent {
            state = record (sent.state) {
              send_next = u32 (sent.state.send_next + 1);
              state = syn_received;
            };
          }))) in
    if has_flag hdr syn then answered else ok (go_on w)
listen_stage net hdr _ w = ok (go_on w)

-- RST: the cases of the switch that have no statement do nothing, and the handler goes on.
reset_state : SocketState → Work → Flow
reset_state syn_received w = return (in_state listen w)
reset_state close_wait w = return (record (in_state closed w) { removed = true })
reset_state time_wait w = return (record (in_state closed w) { removed = true })
reset_state _ w = go_on w

-- RST, SYN and the missing ACK.
flag_stage : Tcp.Header → Work → Flow
unfolding reset_state
flag_stage hdr w = if has_flag hdr rst then reset_state w.state.state w else go_on w

guard_stage : Tcp.Header → Work → Flow
guard_stage hdr w =
    if has_flag hdr syn then return w else if not (has_flag hdr ack) then return w else go_on w

-- SND.UNA =< SEG.ACK =< SND.NXT, compared as plain numbers.
abbrev pub acceptable : Tcp.Header → TcpState → Bool
acceptable hdr s = leb s.send_unacknowledged hdr.ack_num && leb hdr.ack_num s.send_next

-- CLOSING, CLOSE-WAIT and SYN-RECEIVED at an acknowledgment.
ack_state : Tcp.Header → SocketState → Work → Flow
ack_state hdr closing w = go_on (in_state time_wait w)
ack_state hdr close_wait w = go_on (record w { removed = true })
ack_state hdr syn_received w =
    if acceptable hdr w.state
    then go_on (act (start_handler hdr.destination) (in_state established w))
    else return w
ack_state hdr _ w = go_on w

advance_una : Tcp.Header → Work → Work
advance_una hdr w =
    if acceptable hdr w.state
    then record w { state = record (w.state) { send_unacknowledged = hdr.ack_num } }
    else w

-- FIN-WAIT-1 and FIN-WAIT-2 at an acknowledgment.
wait_state : SocketState → SocketState
wait_state fin_wait1 = fin_wait2
wait_state fin_wait2 = time_wait
wait_state s = s

advance_wait : Work → Work
unfolding wait_state
advance_wait w = in_state (wait_state w.state.state) w

abbrev pub takes_data : SocketState → Bool
takes_data established = true
takes_data fin_wait1 = true
takes_data fin_wait2 = true
takes_data _ = false

-- The payload goes to the socket, and is acknowledged if there is one.
accept_data : Network → Tcp.Header → Work → Outcome Work
accept_data net hdr w =
    let written = act (socket_write hdr.payload) w in
    let flushed = if has_flag hdr psh then act socket_flush written else written in
    let s = flushed.state in
    let counted = record flushed {
      state = record s { recv_next = u32 (s.recv_next + length hdr.payload) };
    } in
    if ltb 0 (length hdr.payload) then send net [] ack counted else ok counted

data_stage : Network → Tcp.Header → Work → Outcome Work
unfolding accept_data
data_stage net hdr w = if takes_data w.state.state then accept_data net hdr w else ok w

knock_stage : Tcp.Header → Work → Work
knock_stage hdr w = if has_flag hdr syn then act (tcp_knock hdr.destination) w else w

-- `state.RecvNext++` and `state.SendNext++`.
abbrev bump_recv : Work → Work
bump_recv w = record w { state = record (w.state) { recv_next = u32 (w.state.recv_next + 1) } }

abbrev bump_send : Work → Work
bump_send w = record w { state = record (w.state) { send_next = u32 (w.state.send_next + 1) } }

-- SYN-RECEIVED or ESTABLISHED at a FIN. `close` of the socket has a value receiver.
passive_close : Network → Work → Outcome Work
passive_close net w = do
  sent ← send net [] (fin + ack) (bump_recv (act socket_close (act socket_flush w)))
  ok (in_state close_wait (bump_send sent))

fin_state : Network → SocketState → Work → Outcome Work
unfolding passive_close
fin_state net syn_received w = passive_close net w
fin_state net established w = passive_close net w
fin_state net fin_wait1 w = ok (in_state closing w)
fin_state net fin_wait2 w = do sent ← send net [] ack (bump_recv w); ok (in_state time_wait sent)
fin_state net _ w = ok w

fin_stage : Network → Tcp.Header → Work → Outcome Work
unfolding fin_state
fin_stage net hdr w =
    let at_seq = record w { state = record (w.state) { recv_next = hdr.seq_num } } in
    if has_flag hdr fin then fin_state net w.state.state at_seq else ok w

-- From the acknowledgment on.
pub established_stages : Network → Tcp.Header → Work → Outcome Work
established_stages net hdr w = do
  taken ← data_stage net hdr (advance_wait (advance_una hdr w))
  fin_stage net hdr (knock_stage hdr taken)

abbrev finish : Flow → (Work → Outcome Work) → Outcome Work
finish (return w) f = ok w
finish (go_on w) f = f w

-- The handler behind the look-up, under the lock of the state.
pub process : Network → Tcp.Header → Work → Outcome Work
unfolding listen_stage flag_stage guard_stage ack_state
process net hdr w = do
  first ← listen_stage net hdr w.state.state w
  finish first (λ w1. finish (flag_stage hdr w1) (λ w2.
      finish (guard_stage hdr w2)
        (λ w3. finish (ack_state hdr w3.state.state w3) (λ w4. established_stages net hdr w4))))

-- The canary as far as `handleTCP` reads and changes it: the addresses of its interfaces, the states
-- made so far, the table, the frames queued, and what was done for which state.
pub record Canary : Type 0 where
  pub network : Network
  pub own : List IpAddress
  pub states : List TcpState
  pub table : Table
  pub queue : List (List ℕ)
  pub log : List (ℕ × List Action)

-- `isMe`.
unfoldable pub is_me : List IpAddress → IpAddress → Bool
is_me [] ip = false
is_me (a ∷ more) ip = ip_equal a ip || is_me more ip

-- The state is put back, and taken off the table if the handler removed it.
store_work : ℕ → Work → Canary → Canary
store_work r w c = record c {
  states = set c.states r w.state;
  table = if w.removed then State.remove r c.table else c.table;
  queue = c.queue ++ w.frames;
  log = c.log ++ ((r, w.actions) ∷ []);
}

-- From the lock of the state on.
with_state : Env → Tcp.Header → ℕ → Option TcpState → Canary → Outcome Canary
unfolding process store_work
with_state env hdr r none c = ok c
with_state env hdr r (some s) c = do
  w ←
      process c.network hdr
        (record { state = record s { t = env.now }; frames = []; actions = []; removed = false })
  ok (store_work r w c)

run_state : Env → Tcp.Header → Option ℕ → Canary → Outcome Canary
unfolding with_state
run_state env hdr none c = ok c
run_state env hdr (some r) c = with_state env hdr r (get_elem? c.states r) c

-- `state = c.NewState(…); state.State = SocketListen; c.stateTable.Add(state)`. `Add` reads the clock
-- itself.
open_state : Env → Ipv4.Header → Tcp.Header → Canary → Outcome (ℕ × Canary)
open_state env iph hdr c =
    let r = length c.states in
    let s = new_state env iph.src hdr.source iph.dst hdr.destination in
    let states = c.states ++ (record s { state = listen } ∷ []) in
    elim (State.add env.now states r c.table) [
      | none ↦ panic
      | some table ↦ ok (r, record c { states = states; table = table })
    ]

-- Behind the parser: the guards, the look-up, and the new state of a SYN without an ACK.
dispatch : Env → Ipv4.Header → Tcp.Header → Canary → Outcome Canary
unfolding run_state open_state
dispatch env iph hdr c =
    let found = State.get c.states c.table iph.src iph.dst hdr.source hdr.destination in
    let opened = (do (r, c') ← open_state env iph hdr c; run_state env hdr (some r) c') in
    let known = run_state env hdr found c in
    if not (is_me c.own iph.dst)
    then ok c
    else if hdr.source == 22 || hdr.destination == 22
    then ok c
    else if has_flag hdr syn && not (has_flag hdr ack)
    then opened
    else known

-- A wrong checksum is let pass; any other error ends the call.
parsed_segment : Env → Ipv4.Header → Option Tcp.Header → Option Error → Canary → Outcome Canary
unfolding dispatch
parsed_segment env iph none none c = panic
parsed_segment env iph none (some e) c = err e
parsed_segment env iph (some hdr) e c = dispatch env iph hdr c

pub handle_tcp : Env → Ipv4.Header → List ℕ → Canary → Outcome Canary
unfolding parsed_segment
handle_tcp env iph input c = do
  (hdr, e) ← unmarshal_with_checksum input iph.dst iph.src
  parsed_segment env iph hdr e c
