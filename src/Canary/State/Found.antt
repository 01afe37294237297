-- ===== src/Canary/State/Found.antt =====
-- The state table of state.go: a state that was added is found again.
use honeytrap.Base.{
  ℕ, ◌≡◌, refl, arith, Bool, true, false, List, [], ◌∷◌, Option, none, some, get_elem?, inl, inr,
  Bool-cases,
}
use honeytrap.Base.Bytes.{All}
use honeytrap.Net.Ip.{IpAddress, ip_equal_refl}
use honeytrap.Canary.State.{TcpState, Table, add, matches, matches_slot, find_slot, get}
use honeytrap.Canary.State.Table.{IsPlaced, here, later, IsPort, IsAddress, add_cases, get_sound}

find_slot-none :
    (test : TcpState → Bool) (states : List TcpState) (table : Table)
    → find_slot (matches_slot states test) table ≡ none
    → All (λ x. matches_slot states test x ≡ false) table
unfolding find_slot
find_slot-none test states [] h = tt
find_slot-none test states (none ∷ xs) h = (refl, find_slot-none test states xs h)
find_slot-none test states (some k ∷ xs) h = elim (Bool-cases (matches_slot states test (some k))) [
  | inl passes ↦ absurd (ground arith)
  | inr fails ↦ (fails, find_slot-none test states xs (ground arith))
]

-- What fails at every slot fails at the one that was filled.
IsPlaced-fails :
    (P : Option ℕ → Type 0) (r : ℕ) (test : Option ℕ → Bool) (table t : Table)
    → IsPlaced P r table t
    → All (λ x. test x ≡ false) t
    → test (some r) ≡ false
IsPlaced-fails P r test table t (here p) h = h.0
IsPlaced-fails P r test table t (later {x} {xs} {ys} n p) h = IsPlaced-fails P r test xs ys p h.1

-- The state is in one of the slots.
added_fails :
    (now : ℕ) (states : List TcpState) (r : ℕ) (table t : Table) (test : Option ℕ → Bool)
    → add now states r table ≡ some t
    → All (λ x. test x ≡ false) t
    → test (some r) ≡ false
added_fails now states r table t test e h = elim (add_cases now states r table) [
  | inl (t', e', p) ↦
      let same : t ≡ t' = ground (arith, e, e') in IsPlaced-fails _ r test table t' p (rw same at h)
  | inr (n, inl (t', e', p)) ↦
      let same : t ≡ t' = ground (arith, e, e') in IsPlaced-fails _ r test table t' p (rw same at h)
  | inr (n, inr (e', m)) ↦ absurd (ground (arith, e, e'))
]

-- A look-up finds a state that has both addresses and both ports.
abbrev pub Finds : List TcpState → Table → IpAddress → IpAddress → ℕ → ℕ → Type 0
Finds states table src dst sp dp =
    (k : ℕ) × (get states table src dst sp dp ≡ some k)
    × (s : TcpState) × (get_elem? states k ≡ some s)
    × IsPort s sp
    × IsPort s dp
    × IsAddress s src
    × IsAddress s dst

get-Finds :
    (now : ℕ) (states : List TcpState) (r : ℕ) (table t : Table) (s : TcpState)
    (src dst : IpAddress) (sp dp : ℕ)
    → get_elem? states r ≡ some s
    → add now states r table ≡ some t
    → matches s src dst sp dp ≡ true
    → Finds states t src dst sp dp
unfolding get
get-Finds now states r table t s src dst sp dp made added own =
    by_result (get states t src dst sp dp) refl
  where
    by_result : (m : Option ℕ) → get states t src dst sp dp ≡ m → Finds states t src dst sp dp
    by_result (some k) e =
        let (u, v, a, b, c, d) = get_sound states t src dst sp dp k e in (k, e, u, v, a, b, c, d)
    by_result none e =
        let test : TcpState → Bool = λ u. matches u src dst sp dp in
        let fails =
          added_fails now states r table t (matches_slot states test) added
            (find_slot-none test states t e) in
        absurd (ground (arith, made, own, fails))

own_matches :
    (s : TcpState)
    → (matches s s.src_ip s.dest_ip s.src_port s.dest_port ≡ true)
      × (matches s s.dest_ip s.src_ip s.dest_port s.src_port ≡ true)
unfolding matches
own_matches s =
    let source = ip_equal_refl s.src_ip in
    let destination = ip_equal_refl s.dest_ip in
    (ground (arith, source, destination), ground (arith, source, destination))

-- Behind a call of `add` that does not panic, `get` finds a state for the addresses and ports of the state
-- that was added, in the direction of the client and in that of the answers: one of those made, of which
-- each of the two addresses and of the two ports is its own.
pub add-Finds :
    (now : ℕ) (states : List TcpState) (r : ℕ) (table t : Table) (s : TcpState)
    → get_elem? states r ≡ some s
    → add now states r table ≡ some t
    → Finds states t s.src_ip s.dest_ip s.src_port s.dest_port
      × Finds states t s.dest_ip s.src_ip s.dest_port s.src_port
add-Finds now states r table t s made added = (
  get-Finds now states r table t s s.src_ip s.dest_ip s.src_port s.dest_port made added
      (own_matches s).0,
  get-Finds now states r table t s s.dest_ip s.src_ip s.dest_port s.src_port made added
      (own_matches s).1,
)
