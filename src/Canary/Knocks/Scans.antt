-- ===== src/Canary/Knocks/Scans.antt =====
-- listener/canary/knock.go: a scan of UDP ports, from its first knock to its report.
use honeytrap.Base.{
  ℕ, zero, suc, ◌+◌, ◌-◌, ◌/◌, ◌≤◌, ◌<◌, ◌≡◌, ◌≢◌, refl, arith, ap, ap₂, ◌∙◌, sym, true, List, [],
  ◌∷◌, ◌++◌, length, length-append, length-map, ==_iff, map, ok, ltb,
}
use mathlib.Core.List.{append_assoc, append-nil}
use honeytrap.Base.Bytes.{All}
use honeytrap.Canary.Knocks.{
  Ends, Knock, udp_port, of_udp, KnockGroup, Report, Detector, find_same, add_item, new_group,
  update, on_knock,
}
use honeytrap.Canary.Knocks.Ticks.{each, living, settle, on_tick, ticks, run}
use honeytrap.Canary.Knocks.Reports.{on_tick_reports}
use honeytrap.Canary.Knocks.Joins.{scanning, one_group}

-- A scan of one host: for each knock the seconds since the one before, and its port.
abbrev pub Scan : Type 0
Scan = List (ℕ × ℕ)

abbrev pub knocks_of : Ends → Scan → List (ℕ × Knock)
knocks_of e steps = map (λ (p : ℕ × ℕ). (p.0, udp_port e p.1)) steps

abbrev pub ports_of : Scan → List ℕ
ports_of steps = map (λ (p : ℕ × ℕ). p.1) steps

abbrev pub seconds_of : Scan → ℕ
seconds_of [] = 0
seconds_of ((gap, port) ∷ steps) = gap + seconds_of steps

-- No port comes twice, and none is among the given ones.
abbrev pub IsFresh : List ℕ → List ℕ → Type 0
IsFresh seen [] = Unit
IsFresh seen (q ∷ qs) = All (λ p. p ≢ q) seen × IsFresh (seen ++ (q ∷ [])) qs

-- The detector behind a scan, before the next tick.
Scanned : ℕ → List ℕ → KnockGroup → Detector → Detector → Type 0
Scanned now ports g d d' =
    (d'.reports ≡ d.reports) × (d'.groups ≡ scanning now (length ports) ports g ∷ [])

module _ (g : KnockGroup) (udp : g.made_by ≡ of_udp) (wait : ℕ) where
  scan_goes :
      (steps : Scan) (now : ℕ) (seen : List ℕ) (d : Detector)
      → d.groups ≡ scanning now (length seen) seen g ∷ []
      → All (λ (p : ℕ × ℕ). p.0 < 5) steps
      → IsFresh seen (ports_of steps)
      → (d' : Detector) × (run now (knocks_of g.ends steps) wait d
          ≡ ticks (wait / 5) (now + seconds_of steps) d')
        × Scanned (now + seconds_of steps) (seen ++ ports_of steps) g d d'
  unfolding run Scanned
  scan_goes [] now seen d only fast fresh =
      let same : now ≡ now + 0 = omega arith in
      (
        d,
        ap (λ (n : ℕ). ticks (wait / 5) n d) same,
        (
          refl,
          only
              ∙ ap₂ (λ (n : ℕ) (ps : List ℕ). scanning n (length ps) ps g ∷ []) same
                  (sym (append-nil seen)),
        ),
      )
  scan_goes ((gap, q) ∷ steps) now seen d only fast fresh =
      let before : KnockGroup = scanning now (length seen) seen g in
      let none_due : gap / 5 ≡ 0 = let h = fast.0 in omega arith in
      let one_longer : length seen + 1 ≡ length (seen ++ (q ∷ [])) =
        sym (length-append seen (q ∷ [])) in
      let next =
        one_group (now + gap) q before seen d udp refl fresh.0 only
        ∙ ap (λ (n : ℕ). scanning (now + gap) n (seen ++ (q ∷ [])) g ∷ []) one_longer in
      let (d', goes, (reports, groups)) =
        scan_goes steps (now + gap) (seen ++ (q ∷ [])) (on_knock (now + gap) (udp_port g.ends q) d)
          (next) fast.1 fresh.1 in
      let sum : now + gap + seconds_of steps ≡ now + (gap + seconds_of steps) = omega arith in
      (
        d',
        rw none_due (goes ∙ ap (λ (n : ℕ). ticks (wait / 5) n d') sum),
        (
          reports,
          groups
              ∙ ap₂ (λ (n : ℕ) (ps : List ℕ). scanning n (length ps) ps g ∷ []) sum
                  (append_assoc seen (q ∷ []) (ports_of steps)),
        ),
      )

-- Ticks over no group.
Idle : Detector → Detector → Type 0
Idle d d' = (d'.groups ≡ []) × (d'.reports ≡ d.reports) × (d'.next_ident ≡ d.next_ident)

ticks-Idle :
    (n now : ℕ) (d : Detector)
    → d.groups ≡ []
    → (d' : Detector) × (ticks n now d ≡ ok d') × Idle d d'
unfolding ticks on_tick each settle living Idle
ticks-Idle zero now d only = (d, refl, (only, refl, refl))
ticks-Idle (suc n) now d only =
    let next : Detector = record d { groups = []; reports = d.reports ++ [] } in
    let (d', goes, (empty, reports, ident)) = ticks-Idle n (now + 5) next refl in
    (d', rw only goes, (empty, reports ∙ append-nil d.reports, ident))

-- The report of a scan: its group has the number and the ends of its first knock.
abbrev pub report_of_scan : ℕ → Ends → ℕ → Scan → Report
report_of_scan ident e port steps = record {
  group = ident;
  ends = e;
  duration = seconds_of steps;
  touches = suc (length steps);
  ports = udp_port e port ∷ map (udp_port e) (ports_of steps);
}

-- The ticks behind a scan: the first reports it.
ticks_report :
    (n start count : ℕ) (ports : List ℕ) (total : ℕ) (g : KnockGroup) (d : Detector)
    → d.groups ≡ scanning (start + total) count ports g ∷ []
    → g.start ≡ start
    → (d' : Detector) × (ticks (suc n) (start + total) d ≡ ok d')
      × (d'.groups ≡ [])
      × (d'.reports
          ≡ d.reports
            ++ (record {
              group = g.ident;
              ends = g.ends;
              duration = total;
              touches = count;
              ports = map (udp_port g.ends) ports;
            }
                ∷ []))
unfolding ticks Idle
ticks_report n start count ports total g d only starts =
    let last : KnockGroup = scanning (start + total) count ports g in
    let recent : ltb (start + total + 5) (start + total + 60) ≡ true = ground arith in
    let spent : start + total - g.start ≡ total = omega arith in
    let reported = on_tick_reports (start + total + 5) d last only (omega arith) in
    let next : Detector = record d {
      groups = [];
      reports =
          d.reports
          ++ (record {
            group = g.ident;
            ends = g.ends;
            duration = start + total - g.start;
            touches = count;
            ports = map (udp_port g.ends) ports;
          }
              ∷ []);
    } in
    let (d', goes, (empty, reports, ident)) = ticks-Idle n (start + total + 5) next refl in
    (d', rw (reported, recent) goes, empty, reports ∙ rw spent refl)

first_group :
    (now : ℕ) (e : Ends) (port : ℕ) (d : Detector)
    → d.groups ≡ []
    → (on_knock now (udp_port e port) d).groups
      ≡ scanning now 1 (port ∷ []) (new_group d.next_ident now (udp_port e port)) ∷ []
unfolding on_knock add_item find_same update
first_group now e port d only = rw only (rw ((==_iff d.next_ident d.next_ident).1 refl) refl)

-- A scan of any number of UDP ports of one host, no port twice and less than five seconds between its
-- knocks, is reported once and as a whole, where the set held no group: however long it takes, no tick
-- comes within it, and of any silence of at least five seconds behind it the first tick sends one report,
-- with all ports in order, the number of the knocks and the time from the first to the last, and empties
-- the set.
pub run_scan :
    (now gap wait : ℕ) (e : Ends) (port : ℕ) (steps : Scan) (d : Detector)
    → d.groups ≡ []
    → 5 ≤ wait
    → All (λ (p : ℕ × ℕ). p.0 < 5) steps
    → IsFresh (port ∷ []) (ports_of steps)
    → (d' : Detector) × (run now ((gap, udp_port e port) ∷ knocks_of e steps) wait d ≡ ok d')
      × (d'.groups ≡ [])
      × (d'.reports ≡ d.reports ++ (report_of_scan d.next_ident e port steps ∷ []))
unfolding run Scanned Idle
run_scan now gap wait e port steps d only silent fast fresh =
    let start : ℕ = now + gap in
    let (d1, waited, (empty, reports1, ident1)) = ticks-Idle (gap / 5) now d only in
    let g : KnockGroup = new_group d1.next_ident start (udp_port e port) in
    let (d2, goes, (reports2, groups)) =
      scan_goes g refl wait steps start (port ∷ []) (on_knock start (udp_port e port) d1)
        (first_group start e port d1 empty) fast fresh in
    let (d', ends, gone, reports) =
      ticks_report (wait / 5 - 1) start _ (port ∷ ports_of steps) (seconds_of steps) g d2 groups
        refl in
    let due : wait / 5 ≡ suc (wait / 5 - 1) = omega arith in
    (
      d',
      rw waited (goes ∙ ap (λ (n : ℕ). ticks n (start + seconds_of steps) d2) due ∙ ends),
      gone,
      reports
          ∙ ap₂ (λ (rs : List Report) (r : Report). rs ++ (r ∷ [])) (reports2 ∙ reports1)
              (ap₂ (λ (i n : ℕ). record (report_of_scan i e port steps) { touches = n }) ident1
                (ap suc (length-map steps (λ (p : ℕ × ℕ). p.1)))),
    )
