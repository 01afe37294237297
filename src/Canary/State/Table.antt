-- ===== src/Canary/State/Table.antt =====
-- The state table of state.go: which slot a state gets, and which state is found.
use honeytrap.Base.{
  ℕ, ◌+◌, ◌-◌, ◌*◌, ◌<◌, ltb, ◌↔◌, ◌≡◌, refl, arith, Bool, true, false, List, [], ◌∷◌, Option, none,
  some, get_elem?, ◌⊎◌, inl, inr, Bool-cases, ◌∙◌, subst, sym,
}
use honeytrap.Base.Bytes.{All}
use honeytrap.Net.Ip.{IpAddress, ip_equal}
use honeytrap.Canary.State.{
  SocketState, closed, listen, syn_received, syn_sent, established, fin_wait1, fin_wait2, closing,
  time_wait, close_wait, last_ack, is_time_wait, inactive_after, TcpState, Table, is_free,
  is_inactive, replace_first, add, matches, matches_slot, find_slot, get, cons_slot, or_else,
}

-- The second table is the first with the state `r` in the first slot of which `P` holds.
pub data IsPlaced (P : Option ℕ → Type 0) (r : ℕ) : Table → Table → Type 0 where
  here : {x : Option ℕ} {xs : Table} → P x → IsPlaced P r (x ∷ xs) (some r ∷ xs)
  later :
      {x : Option ℕ} {xs ys : Table} → ¬ P x → IsPlaced P r xs ys → IsPlaced P r (x ∷ xs) (x ∷ ys)

abbrev pub NoneIs : (Option ℕ → Type 0) → Table → Type 0
NoneIs P table = All (λ x. ¬ P x) table

-- The slot holds a state that is in TIME-WAIT, or nothing.
abbrev pub IsFree : List TcpState → Option ℕ → Type 0
IsFree states x =
    (x ≡ none)
    ⊎ ((r : ℕ) × (s : TcpState) × (x ≡ some r)
        × (get_elem? states r ≡ some s)
        × (s.state ≡ time_wait))

-- The slot holds a state whose last segment came more than 30 seconds, in nanoseconds, before now.
abbrev pub IsOld : ℕ → List TcpState → Option ℕ → Type 0
IsOld now states x =
    (r : ℕ) × (s : TcpState) × (x ≡ some r)
    × (get_elem? states r ≡ some s)
    × (s.t + 30 * 1000000000 < now)

is_time_wait_iff : (s : SocketState) → (is_time_wait s ≡ true) ↔ (s ≡ time_wait)
is_time_wait_iff closed = ground arith
is_time_wait_iff listen = ground arith
is_time_wait_iff syn_received = ground arith
is_time_wait_iff syn_sent = ground arith
is_time_wait_iff established = ground arith
is_time_wait_iff fin_wait1 = ground arith
is_time_wait_iff fin_wait2 = ground arith
is_time_wait_iff closing = ground arith
is_time_wait_iff time_wait = ground arith
is_time_wait_iff close_wait = ground arith
is_time_wait_iff last_ack = ground arith

is_free-IsFree : (states : List TcpState) (x : Option ℕ) → is_free states x ≡ true → IsFree states x
unfolding is_free
is_free-IsFree states none h = inl refl
is_free-IsFree states (some r) h = by_state (get_elem? states r) refl
  where
    by_state : (m : Option TcpState) → get_elem? states r ≡ m → IsFree states (some r)
    by_state none e = absurd (ground arith)
    by_state (some s) e = inr (r, s, refl, e, (is_time_wait_iff s.state).0 (ground arith))

IsFree-is_free : (states : List TcpState) (x : Option ℕ) → IsFree states x → is_free states x ≡ true
unfolding is_free
IsFree-is_free states x (inl e) = rw e refl
IsFree-is_free states x (inr (r, s, e, f, w)) =
    let waits = (is_time_wait_iff s.state).1 w in rw e (rw (is_free, f) waits)

inactive-IsOld :
    (now : ℕ) (states : List TcpState) (x : Option ℕ)
    → is_inactive now states x ≡ true
    → IsOld now states x
unfolding is_inactive
inactive-IsOld now states none h = absurd (ground arith)
inactive-IsOld now states (some r) h = by_state (get_elem? states r) refl
  where
    by_state : (m : Option TcpState) → get_elem? states r ≡ m → IsOld now states (some r)
    by_state none e = absurd (ground arith)
    by_state (some s) e = (r, s, refl, e, ground arith)

IsOld-inactive :
    (now : ℕ) (states : List TcpState) (x : Option ℕ)
    → IsOld now states x
    → is_inactive now states x ≡ true
unfolding is_inactive
IsOld-inactive now states x (r, s, e, f, old) =
    let late : ltb inactive_after (now - s.t) ≡ true = ground arith in
    rw e (rw (is_inactive, f) late)

cons_slot-some :
    (x : Option ℕ) (m : Option Table) (t : Table)
    → cons_slot x m ≡ some t
    → (t' : Table) × (m ≡ some t') × (t ≡ x ∷ t')
cons_slot-some x none t h = absurd (ground arith)
cons_slot-some x (some t') t h = (t', refl, ground arith)

cons_slot-none : (x : Option ℕ) (m : Option Table) → cons_slot x m ≡ none → m ≡ none
cons_slot-none x none h = refl
cons_slot-none x (some t') h = absurd (ground arith)

-- A loop over the slots, with a test that decides `P`.
module _ (test : Option ℕ → Bool) (P : Option ℕ → Type 0) (r : ℕ)
    (sound : (x : Option ℕ) → test x ≡ true → P x)
    (complete : (x : Option ℕ) → P x → test x ≡ true) where
  fails-none : (x : Option ℕ) → test x ≡ false → ¬ P x
  fails-none x fails p = absurd (let holds = complete x p in cc)

  replace_first-IsPlaced :
      (table t : Table) → replace_first test r table ≡ some t → IsPlaced P r table t
  unfolding replace_first
  replace_first-IsPlaced [] t h = absurd (ground arith)
  replace_first-IsPlaced (x ∷ xs) t h = elim (Bool-cases (test x)) [
    | inl passes ↦
        let e : t ≡ some r ∷ xs = ground arith in
        subst (IsPlaced P r (x ∷ xs)) (sym e) (here (sound x passes))
    | inr fails ↦
        let (t', m, e) = cons_slot-some x (replace_first test r xs) t (ground arith) in
        subst (IsPlaced P r (x ∷ xs)) (sym e)
          (later (fails-none x fails) (replace_first-IsPlaced xs t' m))
  ]

  replace_first-NoneIs : (table : Table) → replace_first test r table ≡ none → NoneIs P table
  unfolding replace_first
  replace_first-NoneIs [] h = tt
  replace_first-NoneIs (x ∷ xs) h = elim (Bool-cases (test x)) [
    | inl passes ↦ absurd (ground arith)
    | inr fails ↦ (
      fails-none x fails,
      replace_first-NoneIs xs (cons_slot-none x (replace_first test r xs) (ground arith)),
    )
  ]

  replaced :
      (table : Table)
      → ((t : Table) × (replace_first test r table ≡ some t) × IsPlaced P r table t)
        ⊎ ((replace_first test r table ≡ none) × NoneIs P table)
  replaced table = by_result (replace_first test r table) refl
    where
      by_result :
          (m : Option Table)
          → replace_first test r table ≡ m
          → ((t : Table) × (replace_first test r table ≡ some t) × IsPlaced P r table t)
            ⊎ ((replace_first test r table ≡ none) × NoneIs P table)
      by_result none e = inr (e, replace_first-NoneIs table e)
      by_result (some t) e = inl (t, e, replace_first-IsPlaced table t e)

add-or_else :
    (now : ℕ) (states : List TcpState) (r : ℕ) (table : Table)
    → add now states r table
      ≡ or_else
          (replace_first (is_free states) r table)
          (replace_first (is_inactive now states) r table)
unfolding add
add-or_else now states r table = refl

-- `add` puts the state into the first slot that holds nothing or a state in TIME-WAIT. If there is none
-- it takes the first slot whose state has had no segment for more than 30 seconds, and panics exactly if
-- no slot is one of these; the other slots stay as they are.
pub add_cases :
    (now : ℕ) (states : List TcpState) (r : ℕ) (table : Table)
    → ((t : Table) × (add now states r table ≡ some t) × IsPlaced (IsFree states) r table t)
      ⊎ (NoneIs (IsFree states) table
          × (((t : Table) × (add now states r table ≡ some t)
                × IsPlaced (IsOld now states) r table t)
              ⊎ ((add now states r table ≡ none) × NoneIs (IsOld now states) table)))
add_cases now states r table =
    elim (replaced (is_free states) (IsFree states) r (is_free-IsFree states)
      (IsFree-is_free states) table) [
        | inl (t, e, p) ↦ inl (t, add-or_else now states r table ∙ rw e refl, p)
        | inr (e, n) ↦ inr (
          n,
          elim (replaced (is_inactive now states) (IsOld now states) r (inactive-IsOld now states)
              (IsOld-inactive now states) table) [
                | inl (t, e', p) ↦ inl (t, add-or_else now states r table ∙ rw (e, e') refl, p)
                | inr (e', n') ↦ inr (add-or_else now states r table ∙ rw (e, e') refl, n')
              ],
        )
      ]

find_slot-passes :
    (test : TcpState → Bool) (states : List TcpState) (table : Table) (r : ℕ)
    → find_slot (matches_slot states test) table ≡ some r
    → (s : TcpState) × (get_elem? states r ≡ some s) × (test s ≡ true)
unfolding find_slot
find_slot-passes test states [] r h = absurd (ground arith)
find_slot-passes test states (x ∷ xs) r h = elim (Bool-cases (matches_slot states test x)) [
  | inl passes ↦ slot_passes x passes (ground arith)
  | inr fails ↦ find_slot-passes test states xs r (ground arith)
]
  where
    state_passes :
        (m : Option TcpState)
        → get_elem? states r ≡ m
        → matches_slot states test (some r) ≡ true
        → (s : TcpState) × (get_elem? states r ≡ some s) × (test s ≡ true)
    state_passes none e p = absurd (ground arith)
    state_passes (some s) e p = (s, e, ground arith)

    slot_passes :
        (x : Option ℕ)
        → matches_slot states test x ≡ true
        → x ≡ some r
        → (s : TcpState) × (get_elem? states r ≡ some s) × (test s ≡ true)
    slot_passes x p e = state_passes (get_elem? states r) refl (rw e at p)

-- Whether an address and a port are those of either end of a connection.
abbrev pub IsPort : TcpState → ℕ → Type 0
IsPort s port = (s.src_port ≡ port) ⊎ (s.dest_port ≡ port)

abbrev pub IsAddress : TcpState → IpAddress → Type 0
IsAddress s ip = (ip_equal s.src_ip ip ≡ true) ⊎ (ip_equal s.dest_ip ip ≡ true)

matches_parts :
    (s : TcpState) (src dst : IpAddress) (sp dp : ℕ)
    → matches s src dst sp dp ≡ true
    → IsPort s sp × IsPort s dp × IsAddress s src × IsAddress s dst
unfolding matches
matches_parts s src dst sp dp h = (ground arith, ground arith, ground arith, ground arith)

-- A state that `get` finds is one of those made, and each of the two addresses and of the two ports is
-- one of the connection's own. The four are tested one by one, so they may name the same end.
pub get_sound :
    (states : List TcpState) (table : Table) (src dst : IpAddress) (sp dp r : ℕ)
    → get states table src dst sp dp ≡ some r
    → (s : TcpState) × (get_elem? states r ≡ some s)
      × IsPort s sp
      × IsPort s dp
      × IsAddress s src
      × IsAddress s dst
unfolding get
get_sound states table src dst sp dp r h =
    let (s, e, p) = find_slot-passes (λ s. matches s src dst sp dp) states table r h in
    let (a, b, c, d) = matches_parts s src dst sp dp p in (s, e, a, b, c, d)
