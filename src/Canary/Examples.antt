-- ===== src/Canary/Examples.antt =====
-- The theorems on the checksum and the state table, at a SYN and a table of two slots.
use honeytrap.Base.{
  refl, some, none, get_elem?, ◌⊎◌, ℕ, ◌+◌, ◌*◌, ◌≡◌, arith, List, [], ◌∷◌, ok, get_or,
}
use honeytrap.Net.Ip.{ipv4, ip_equal, to4, bytes_eq}
use honeytrap.Canary.State.{
  TcpState, Table, new_state, add, get, find_slot, matches, replace_first, is_free,
}
use honeytrap.Canary.State.Found.{Finds, add-Finds}
use honeytrap.Canary.State.Table as StateTable
use honeytrap.Wire.Tcp.Checksum.{csum}
use honeytrap.Canary.Checksum.{update_tcp_checksum, store_checksum_at}
use honeytrap.Canary.Checksum.Laws as ChecksumLaws

abbrev syn_bytes : List ℕ
syn_bytes =
    0 ∷ 23 ∷ 156 ∷ 64 ∷ 1 ∷ 2 ∷ 3 ∷ 4 ∷ 0 ∷ 0 ∷ 0 ∷ 0 ∷ 80 ∷ 2 ∷ 4 ∷ 0 ∷ 0 ∷ 0 ∷ 0 ∷ 0 ∷ 65 ∷ []

csum-update_example :
    (v : ℕ) × (update_tcp_checksum (ipv4 10 0 0 1) (ipv4 10 0 0 2) syn_bytes
      ≡ ok (store_checksum_at v syn_bytes))
    × (get_or (store_checksum_at v syn_bytes) 16 0 * 256
          + get_or (store_checksum_at v syn_bytes) 17 0
        ≡ v)
    × (csum (store_checksum_at v syn_bytes) (10 ∷ 0 ∷ 0 ∷ 1 ∷ []) (10 ∷ 0 ∷ 0 ∷ 2 ∷ []) ≡ v)
    × (csum (store_checksum_at v syn_bytes) (10 ∷ 0 ∷ 0 ∷ 2 ∷ []) (10 ∷ 0 ∷ 0 ∷ 1 ∷ []) ≡ v)
csum-update_example =
    ChecksumLaws.csum-update 10 0 0 1 10 0 0 2 syn_bytes (ground arith) (omega arith) (omega arith)

abbrev telnet_state : TcpState
telnet_state =
    new_state (record { now = 5; random_id = 1; random_sequence = 9 }) (ipv4 10 0 0 1) 40000
      (ipv4 10 0 0 2) 23

-- Two slots, of which the first is taken by the only state, which is not in TIME-WAIT.
abbrev small_table : Table
small_table = some 0 ∷ none ∷ []

add_cases_example :
    ((t : Table) × (add 10 (telnet_state ∷ []) 1 small_table ≡ some t)
      × StateTable.IsPlaced (StateTable.IsFree (telnet_state ∷ [])) 1 small_table t)
    ⊎ (StateTable.NoneIs (StateTable.IsFree (telnet_state ∷ [])) small_table
        × (((t : Table) × (add 10 (telnet_state ∷ []) 1 small_table ≡ some t)
              × StateTable.IsPlaced (StateTable.IsOld 10 (telnet_state ∷ [])) 1 small_table t)
            ⊎ ((add 10 (telnet_state ∷ []) 1 small_table ≡ none)
                × StateTable.NoneIs (StateTable.IsOld 10 (telnet_state ∷ [])) small_table)))
add_cases_example = StateTable.add_cases 10 (telnet_state ∷ []) 1 small_table

get_sound_example :
    (s : TcpState) × (get_elem? (telnet_state ∷ []) 0 ≡ some s)
    × StateTable.IsPort s 23
    × StateTable.IsPort s 40000
    × StateTable.IsAddress s (ipv4 10 0 0 2)
    × StateTable.IsAddress s (ipv4 10 0 0 1)
get_sound_example =
    StateTable.get_sound (telnet_state ∷ []) small_table (ipv4 10 0 0 2) (ipv4 10 0 0 1) 23 40000 0
      (unfold get find_slot matches new_state ip_equal to4 bytes_eq in refl)

add-Finds_example :
    Finds (telnet_state ∷ []) (some 0 ∷ []) (ipv4 10 0 0 1) (ipv4 10 0 0 2) 40000 23
    × Finds (telnet_state ∷ []) (some 0 ∷ []) (ipv4 10 0 0 2) (ipv4 10 0 0 1) 23 40000
unfolding new_state
add-Finds_example =
    add-Finds 10 (telnet_state ∷ []) 0 (none ∷ []) (some 0 ∷ []) telnet_state refl
      (unfold add replace_first is_free in refl)
