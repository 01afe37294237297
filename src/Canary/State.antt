-- ===== src/Canary/State.antt =====
-- listener/canary/state.go and the states of socket.go. A `*State` is a reference, an index into
-- the list of the states made so far; the table holds references. Fields that no code reads or
-- writes (the send window, the urgent pointers, LastAcked) are left out, and the socket's buffer
-- and channel are seen through the actions that `Handler` lists.
pub mod Table
pub mod Found
use honeytrap.Base.{
  ℕ, zero, suc, ◌+◌, ◌-◌, ◌*◌, ◌^◌, ◌≤◌, ◌<◌, ◌≡◌, refl, arith, Bool, true, false, not, ◌&&◌, ◌||◌,
  List, [], ◌∷◌, ltb, ◌==◌, if◌then◌else◌, Option, none, some, get_elem?,
}
use honeytrap.Net.Ip.{IpAddress, ip_equal}

pub data SocketState : Type 0 where
  closed listen syn_received syn_sent established fin_wait1 fin_wait2 : SocketState
  closing time_wait close_wait last_ack : SocketState

abbrev pub is_time_wait : SocketState → Bool
is_time_wait time_wait = true
is_time_wait _ = false

pub record TcpState : Type 0 where
  pub src_ip : IpAddress
  pub src_port : ℕ
  pub dest_ip : IpAddress
  pub dest_port : ℕ
  pub id : ℕ
  pub state : SocketState
  pub send_unacknowledged : ℕ
  pub send_next : ℕ
  pub initial_send_sequence_number : ℕ
  pub recv_next : ℕ
  pub receive_window : ℕ
  pub t : ℕ

-- What a call takes from outside: the clock, in nanoseconds, and the two random numbers of
-- `NewState`.
pub record Env : Type 0 where
  pub now : ℕ
  pub random_id : ℕ
  pub random_sequence : ℕ

-- `NewState`.
unfoldable pub new_state : Env → IpAddress → ℕ → IpAddress → ℕ → TcpState
new_state env src src_port dest dst_port = record {
  src_ip = src;
  src_port = src_port;
  dest_ip = dest;
  dest_port = dst_port;
  id = env.random_id;
  state = closed;
  send_unacknowledged = 0;
  send_next = 0;
  initial_send_sequence_number = env.random_sequence;
  recv_next = 0;
  receive_window = 65535;
  t = env.now;
}

abbrev pub Table : Type 0
Table = List (Option ℕ)

-- 30 seconds.
abbrev pub inactive_after : ℕ
inactive_after = 30000000000

-- A slot that `Add` takes in its first loop: free, or in TIME-WAIT.
unfoldable pub is_free : List TcpState → Option ℕ → Bool
is_free states none = true
is_free states (some r) = elim (get_elem? states r) [ none ↦ false | some s ↦ is_time_wait s.state ]

-- One that it takes in its second loop, where no slot is free.
unfoldable pub is_inactive : ℕ → List TcpState → Option ℕ → Bool
is_inactive now states none = false
is_inactive now states (some r) = elim (get_elem? states r) [
  | none ↦ false
  | some s ↦ ltb inactive_after (now - s.t)
]

abbrev pub cons_slot : Option ℕ → Option Table → Option Table
cons_slot x none = none
cons_slot x (some xs) = some (x ∷ xs)

-- The first slot that passes the test is overwritten; `none` if no slot does.
unfoldable pub replace_first : (Option ℕ → Bool) → ℕ → Table → Option Table
replace_first test r [] = none
replace_first test r (x ∷ xs) =
    let rest = replace_first test r xs in if test x then some (some r ∷ xs) else cons_slot x rest

abbrev pub or_else : Option Table → Option Table → Option Table
or_else none late = late
or_else (some table) late = some table

-- `Add`; `none` is the panic "Statetable full".
unfoldable pub add : ℕ → List TcpState → ℕ → Table → Option Table
unfolding replace_first is_free is_inactive
add now states r table =
    or_else (replace_first (is_free states) r table)
      (replace_first (is_inactive now states) r table)

-- The tests of `Get` on one state, each of which skips it.
unfoldable pub matches : TcpState → IpAddress → IpAddress → ℕ → ℕ → Bool
matches s src dst src_port dst_port =
    if not (s.src_port == src_port) && not (s.dest_port == src_port)
    then false
    else if not (s.dest_port == dst_port) && not (s.src_port == dst_port)
    then false
    else if not (ip_equal s.src_ip src) && not (ip_equal s.dest_ip src)
    then false
    else if not (ip_equal s.dest_ip dst) && not (ip_equal s.src_ip dst)
    then false
    else true

abbrev pub matches_slot : List TcpState → (TcpState → Bool) → Option ℕ → Bool
matches_slot states test none = false
matches_slot states test (some r) = elim (get_elem? states r) [ none ↦ false | some s ↦ test s ]

unfoldable pub find_slot : (Option ℕ → Bool) → Table → Option ℕ
find_slot test [] = none
find_slot test (x ∷ xs) = let rest = find_slot test xs in if test x then x else rest

-- `Get`.
unfoldable pub get : List TcpState → Table → IpAddress → IpAddress → ℕ → ℕ → Option ℕ
unfolding find_slot matches
get states table src dst src_port dst_port =
    find_slot (matches_slot states (λ s. matches s src dst src_port dst_port)) table

-- `(*st)[i] != s`.
abbrev pub holds : ℕ → Option ℕ → Bool
holds r none = false
holds r (some k) = k == r

-- `Remove`: only the first slot that holds the state is cleared.
unfoldable pub remove : ℕ → Table → Table
remove r [] = []
remove r (x ∷ xs) = let rest = remove r xs in if holds r x then none ∷ xs else x ∷ rest
