-- ===== src/Canary/Handler/Moves.antt =====
-- What one segment does to a connection.
use honeytrap.Base.{◌≡◌, refl, arith, Bool, true, false, ok, >>=-eq-ok, ◌⊎◌, inl, inr, subst, sym}
use honeytrap.Wire.Tcp
use honeytrap.Wire.Tcp.{syn, ack, rst, fin, psh, has_flag}
use honeytrap.Canary.State.{
  SocketState, closed, listen, syn_received, established, fin_wait1, fin_wait2, closing, time_wait,
  close_wait,
}
use honeytrap.Canary.Send.{Network}
use honeytrap.Canary.Handler.{
  Work, process, send, established_stages, act, in_state, data_stage, fin_stage, knock_stage,
  advance_una, advance_wait, wait_state, start_handler,
}

-- The moves of a connection between two segments.
pub data Move : SocketState → SocketState → Type 0 where
  stay : {s : SocketState} → Move s s
  synchronised : Move listen syn_received
  reset : Move syn_received listen
  dropped_close : Move close_wait closed
  dropped_wait : Move time_wait closed
  confirmed : Move syn_received established
  confirmed_closed : Move syn_received close_wait
  peer_closed : Move established close_wait
  first_wait : Move fin_wait1 fin_wait2
  first_done : Move fin_wait1 time_wait
  second_wait : Move fin_wait2 time_wait
  both_closed : Move closing time_wait

-- The same, as a test.
allowed : SocketState → SocketState → Bool
allowed listen syn_received = true
allowed syn_received listen = true
allowed syn_received established = true
allowed syn_received close_wait = true
allowed close_wait closed = true
allowed time_wait closed = true
allowed established close_wait = true
allowed fin_wait1 fin_wait2 = true
allowed fin_wait1 time_wait = true
allowed fin_wait2 time_wait = true
allowed closing time_wait = true
allowed _ _ = false

-- Where the stages from the acknowledgment on lead.
ends : SocketState → SocketState → Bool
ends syn_received close_wait = true
ends established close_wait = true
ends fin_wait1 closing = true
ends fin_wait2 time_wait = true
ends _ _ = false

late : SocketState → SocketState → Bool
late syn_received close_wait = true
late established close_wait = true
late fin_wait1 fin_wait2 = true
late fin_wait1 time_wait = true
late fin_wait2 time_wait = true
late _ _ = false

data_stage_keeps :
    (net : Network) (hdr : Tcp.Header) (w w' : Work)
    → data_stage net hdr w ≡ ok w'
    → w'.state.state ≡ w.state.state
unfolding data_stage send
data_stage_keeps net hdr w w' h = ground arith

fin_stage_moves :
    (net : Network) (hdr : Tcp.Header) (w w' : Work) (x : SocketState)
    → w.state.state ≡ x
    → fin_stage net hdr w ≡ ok w'
    → (w'.state.state ≡ x) ⊎ (ends x w'.state.state ≡ true)
unfolding fin_stage send ends
fin_stage_moves net hdr w w' closed e h = ground arith
fin_stage_moves net hdr w w' x e h = ground arith

stages_moves :
    (net : Network) (hdr : Tcp.Header) (w w' : Work) (x : SocketState)
    → w.state.state ≡ x
    → established_stages net hdr w ≡ ok w'
    → (w'.state.state ≡ x) ⊎ (late x w'.state.state ≡ true)
unfolding established_stages advance_una advance_wait knock_stage late ends
stages_moves net hdr w w' x e h =
    let (taken, d, f) = >>=-eq-ok (data_stage net hdr (advance_wait (advance_una hdr w))) _ h in
    ground (
      arith,
      data_stage_keeps net hdr (advance_wait (advance_una hdr w)) taken d,
      fin_stage_moves net hdr (knock_stage hdr taken) w' (wait_state x),
    )

process_moves :
    (net : Network) (hdr : Tcp.Header) (w w' : Work) (x : SocketState)
    → w.state.state ≡ x
    → process net hdr w ≡ ok w'
    → (w'.state.state ≡ x) ⊎ (allowed x w'.state.state ≡ true)
unfolding process send allowed late
process_moves net hdr w w' syn_received e h = ground (
  arith,
  stages_moves net hdr (act (start_handler hdr.destination) (in_state established w)) w' established
      refl,
)
process_moves net hdr w w' closing e h =
    ground (arith, stages_moves net hdr (in_state time_wait w) w' time_wait refl)
process_moves net hdr w w' close_wait e h =
    ground (arith, stages_moves net hdr (record w { removed = true }) w' close_wait e)
process_moves net hdr w w' x e h = ground (arith, stages_moves net hdr w w' x e)

Move-allowed : (a b : SocketState) → allowed a b ≡ true → Move a b
unfolding allowed
Move-allowed listen syn_received h = synchronised
Move-allowed syn_received listen h = reset
Move-allowed syn_received established h = confirmed
Move-allowed syn_received close_wait h = confirmed_closed
Move-allowed close_wait closed h = dropped_close
Move-allowed time_wait closed h = dropped_wait
Move-allowed established close_wait h = peer_closed
Move-allowed fin_wait1 fin_wait2 h = first_wait
Move-allowed fin_wait1 time_wait h = first_done
Move-allowed fin_wait2 time_wait h = second_wait
Move-allowed closing time_wait h = both_closed
Move-allowed _ _ h = absurd (ground arith)

-- Whatever the segment, the handler leaves a connection in its state or takes it along one of the
-- listed moves. ESTABLISHED is reached from SYN-RECEIVED alone, and no segment leads to FIN-WAIT-1.
pub process-Move :
    (net : Network) (hdr : Tcp.Header) (w w' : Work)
    → process net hdr w ≡ ok w'
    → Move w.state.state w'.state.state
process-Move net hdr w w' h = elim (process_moves net hdr w w' w.state.state refl h) [
  | inl same ↦ subst (λ x. Move w.state.state x) (sym same) stay
  | inr moved ↦ Move-allowed w.state.state w'.state.state moved
]
