-- ===== src/Canary/Knocks/Examples.antt =====
-- The theorems on the detector, at three groups of one host.
use honeytrap.Base.{ℕ, ◌≡◌, ◌⊎◌, refl, arith, true, List, [], ◌∷◌, ◌++◌, ltb, if◌then◌else◌, ok}
use honeytrap.Net.Ip.{ipv4}
use honeytrap.Canary.Knocks.{
  Ends, Knock, udp_port, tcp_port, of_udp, of_tcp, KnockGroup, Report, Detector, same_knock,
  add_item,
}
use honeytrap.Canary.Knocks.Ticks.{report_of, on_tick, run}
use honeytrap.Canary.Knocks.Reports.{Has, on_tick_keeps, on_tick_reports}
use honeytrap.Canary.Knocks.Sweeps.{Sent}
use honeytrap.Canary.Knocks.Scans.{Scan, knocks_of, report_of_scan, run_scan}
use honeytrap.Canary.Knocks.Unique.{IsUnique, add_item-IsUnique}

-- A scanner at 10.0.0.`a`.
abbrev host : ℕ → Ends
host a = record {
  source_hardware_addr = 2 ∷ 0 ∷ 0 ∷ 0 ∷ 0 ∷ a ∷ [];
  destination_hardware_addr = 2 ∷ 0 ∷ 0 ∷ 0 ∷ 0 ∷ 99 ∷ [];
  source_ip = ipv4 10 0 0 a;
  destination_ip = ipv4 10 0 0 99;
}

abbrev scanned : ℕ → KnockGroup
scanned a = record {
  ident = a;
  start = 90;
  last = 95;
  ends = host a;
  made_by = of_udp;
  count = 2;
  knocks = udp_port (host a) 53 ∷ (udp_port (host a) 161 ∷ []);
}

abbrev three : Detector
three = record { groups = scanned 1 ∷ (scanned 2 ∷ (scanned 3 ∷ [])); next_ident = 4; reports = [] }

abbrev one : Detector
one = record { groups = scanned 1 ∷ []; next_ident = 2; reports = [] }

-- The second of three groups stays, and the third is reported twice.
three_groups :
    on_tick 100 three
    ≡ ok (record {
      groups = scanned 2 ∷ [];
      next_ident = 4;
      reports = report_of (scanned 1) ∷ (report_of (scanned 3) ∷ (report_of (scanned 3) ∷ []));
    })
unfolding on_tick
three_groups = refl

on_tick_keeps_example :
    (d' : Detector) × (sent : List Report) × (on_tick 100 three ≡ ok d')
    × (d'.reports ≡ three.reports ++ sent)
    × ((g : KnockGroup) → Has g three.groups → Has g d'.groups ⊎ Sent g sent)
on_tick_keeps_example = on_tick_keeps 100 three

on_tick_reports_example :
    on_tick 100 one
    ≡ ok (record one {
      groups = if ltb 100 155 then [] else scanned 1 ∷ [];
      reports = [] ++ (report_of (scanned 1) ∷ []);
    })
on_tick_reports_example = on_tick_reports 100 one (scanned 1) refl (omega arith)

abbrev nobody : Detector
nobody = record { groups = []; next_ident = 7; reports = [] }

-- Ports 2, 3 and 5 behind the first, eleven seconds long.
abbrev slow_scan : Scan
slow_scan = (4, 2) ∷ ((4, 3) ∷ ((3, 5) ∷ []))

run_scan_example :
    (d' : Detector) × (run 100 ((12, udp_port (host 1) 1) ∷ knocks_of (host 1) slow_scan) 23 nobody
      ≡ ok d')
    × (d'.groups ≡ [])
    × (d'.reports ≡ [] ++ (report_of_scan 7 (host 1) 1 slow_scan ∷ []))
run_scan_example =
    run_scan 100 12 23 (host 1) 1 slow_scan nobody refl (omega arith)
      (omega arith, (omega arith, (omega arith, tt)))
      (
        (ground arith, tt),
        (
          (ground arith, (ground arith, tt)),
          ((ground arith, (ground arith, (ground arith, tt))), tt),
        ),
      )

abbrev ports : List Knock
ports = tcp_port (host 1) 22 ∷ (tcp_port (host 1) 80 ∷ [])

add_item-IsUnique_example :
    IsUnique (same_knock of_tcp) (add_item (same_knock of_tcp) (tcp_port (host 1) 80) ports).0
    × (same_knock of_tcp
          (tcp_port (host 1) 80)
          (add_item (same_knock of_tcp) (tcp_port (host 1) 80) ports).1
        ≡ true)
unfolding same_knock
add_item-IsUnique_example =
    add_item-IsUnique (same_knock of_tcp) (tcp_port (host 1) 80) ports ((refl, tt), (tt, tt)) refl
