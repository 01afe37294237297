-- ===== src/Canary/Knocks.antt =====
-- listener/canary/{unique-set,knock}.go: the sets of values, the groups of knocks, and the detector of port
-- scans with its ticks (Ticks). Times are seconds; a group is named by `ident`, which stands for its pointer.
pub mod Ticks
pub mod Sweeps
pub mod Reports
pub mod Joins
pub mod Scans
pub mod Unique
mod Examples
use honeytrap.Base.{
  ℕ, zero, suc, ◌+◌, ◌-◌, ◌/◌, ◌≡◌, Bool, true, false, ◌&&◌, not, List, [], ◌∷◌, ◌++◌, length, ltb,
  leb, ◌==◌, if◌then◌else◌, Option, none, some, get_elem?, map, Outcome, ok, panic, ◌>>=◌,
}
use honeytrap.Net.Ip.{IpAddress, bytes_eq, ip_equal}

-- The loop of `UniqueSet.Add`.
unfoldable pub find_same : {A : Type 0} → (A → A → Bool) → A → List A → Option A
find_same same item [] = none
find_same same item (x ∷ xs) =
    let rest = find_same same item xs in if same item x then some x else rest

-- The item that was found is returned; otherwise the given one is appended.
abbrev pub added : {A : Type 0} → A → List A → Option A → List A × A
added item items (some x) = (items, x)
added item items none = (items ++ (item ∷ []), item)

-- `UniqueSet.Add`: the items behind the call, and the item that it returns.
unfoldable pub add_item : {A : Type 0} → (A → A → Bool) → A → List A → List A × A
unfolding find_same
add_item same item items = added item items (find_same same item items)

pub record Ends : Type 0 where
  pub source_hardware_addr : List ℕ
  pub destination_hardware_addr : List ℕ
  pub source_ip : IpAddress
  pub destination_ip : IpAddress

pub data Knock : Type 0 where
  udp_port tcp_port : Ends → ℕ → Knock
  icmp_knock : Ends → Knock

pub data Kind : Type 0 where
  of_udp of_tcp of_icmp : Kind

abbrev pub kind_of : Knock → Kind
kind_of (udp_port ends port) = of_udp
kind_of (tcp_port ends port) = of_tcp
kind_of (icmp_knock ends) = of_icmp

abbrev pub ends_of : Knock → Ends
ends_of (udp_port ends port) = ends
ends_of (tcp_port ends port) = ends
ends_of (icmp_knock ends) = ends

-- The field `Protocol`: a group of UDP knocks leaves it unset, which is the number of TCP.
abbrev pub protocol_of : Kind → ℕ
protocol_of of_udp = 0
protocol_of of_tcp = 0
protocol_of of_icmp = 2

-- The function of the set of a group, by the kind of the knock that made the group.
unfoldable pub same_knock : Kind → Knock → Knock → Bool
same_knock of_udp (udp_port e p) (udp_port f q) = p == q
same_knock of_tcp (tcp_port e p) (tcp_port f q) = p == q
same_knock of_icmp (icmp_knock e) (icmp_knock f) = true
same_knock _ _ _ = false

pub record KnockGroup : Type 0 where
  pub ident : ℕ
  pub start : ℕ
  pub last : ℕ
  pub ends : Ends
  pub made_by : Kind
  pub count : ℕ
  pub knocks : List Knock

-- `NewGroup`; `last` is the zero time.
abbrev pub new_group : ℕ → ℕ → Knock → KnockGroup
new_group ident now k = record {
  ident = ident;
  start = now;
  last = 0;
  ends = ends_of k;
  made_by = kind_of k;
  count = 0;
  knocks = [];
}

-- The function of the set of groups.
unfoldable pub same_group : KnockGroup → KnockGroup → Bool
same_group k1 k2 =
    protocol_of k1.made_by == protocol_of k2.made_by
    && bytes_eq k1.ends.source_hardware_addr k2.ends.source_hardware_addr
    && bytes_eq k1.ends.destination_hardware_addr k2.ends.destination_hardware_addr
    && ip_equal k1.ends.source_ip k2.ends.source_ip
    && ip_equal k1.ends.destination_ip k2.ends.destination_ip

-- `Count++`, `Last` and `Knocks.Add`, through the pointer that `Add` returned.
abbrev pub touched : ℕ → Knock → KnockGroup → KnockGroup
unfolding add_item
touched now k g = record g {
  count = g.count + 1;
  last = now;
  knocks = (add_item (same_knock g.made_by) k g.knocks).0;
}

unfoldable pub update : ℕ → (KnockGroup → KnockGroup) → List KnockGroup → List KnockGroup
update ident f [] = []
update ident f (g ∷ gs) =
    let rest = update ident f gs in if g.ident == ident then f g ∷ gs else g ∷ rest

-- What a report tells of a group; the texts of the ports and of the message are made of these fields.
pub record Report : Type 0 where
  pub group : ℕ
  pub ends : Ends
  pub duration : ℕ
  pub touches : ℕ
  pub ports : List Knock

pub record Detector : Type 0 where
  pub groups : List KnockGroup
  pub next_ident : ℕ
  pub reports : List Report

-- A knock arrives.
unfoldable pub on_knock : ℕ → Knock → Detector → Detector
unfolding same_group update
on_knock now k d =
    let (groups, knock) = add_item same_group (new_group d.next_ident now k) d.groups in
    record d { groups = update knock.ident (touched now k) groups; next_ident = d.next_ident + 1 }
