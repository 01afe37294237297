-- ===== src/Canary/Knocks/Ticks.antt =====
-- listener/canary/{unique-set,knock}.go: the removal of groups while the set is ranged over, the ticks of
-- the detector and its loop.
use honeytrap.Base.{
  ℕ, zero, suc, ◌+◌, ◌-◌, ◌/◌, Bool, false, ◌&&◌, List, [], ◌∷◌, ◌++◌, length, ltb, leb, ◌==◌,
  if◌then◌else◌, Option, none, some, get_elem?, map, Outcome, ok, panic, ◌>>=◌,
}
use honeytrap.Canary.Knocks.{Knock, KnockGroup, Report, Detector, on_knock}

-- The array of the set while `Each` runs over it: `Remove` moves items within it, and shortens the set
-- and not the range of the loop.
pub record Sweep : Type 0 where
  pub items : List (Option KnockGroup)
  pub live : ℕ
  pub sent : List Report

-- `append(items[:i], items[i+1:]...)`, from the place of the removed item on: as many items move down as
-- live behind it, and the last place keeps its item.
unfoldable pub shift : ℕ → List (Option KnockGroup) → List (Option KnockGroup)
shift (suc n) (x ∷ y ∷ xs) = y ∷ shift n (y ∷ xs)
shift _ xs = xs

abbrev pub is_group : ℕ → Option KnockGroup → Bool
is_group ident none = false
is_group ident (some g) = g.ident == ident

-- `UniqueSet.Remove`, over the items that live.
unfoldable pub remove_live : ℕ → ℕ → List (Option KnockGroup) → List (Option KnockGroup) × ℕ
unfolding shift
remove_live ident zero xs = (xs, 0)
remove_live ident (suc n) [] = ([], suc n)
remove_live ident (suc n) (x ∷ xs) =
    let rest = remove_live ident n xs in
    if is_group ident x then (shift n (none ∷ xs), n) else (x ∷ rest.0, suc rest.1)

abbrev pub report_of : KnockGroup → Report
report_of g = record {
  group = g.ident;
  ends = g.ends;
  duration = g.last - g.start;
  touches = g.count;
  ports = g.knocks;
}

unfoldable pub removed : KnockGroup → Sweep → Sweep
unfolding remove_live
removed g s = record s {
  items = (remove_live g.ident s.live s.items).0;
  live = (remove_live g.ident s.live s.items).1;
}

abbrev pub reported : KnockGroup → Sweep → Sweep
reported g s = record s { sent = s.sent ++ (report_of g ∷ []) }

-- `k.Last.Add(d).After(now)`.
abbrev pub is_within : ℕ → ℕ → KnockGroup → Bool
is_within seconds now g = ltb now (g.last + seconds)

-- The function that `Each` runs: the removal is deferred, and happens when it returns.
unfoldable pub visit : ℕ → KnockGroup → Sweep → Sweep
unfolding removed
visit now g s =
    if leb g.count 100 && is_within 5 now g
    then s
    else if is_within 60 now g
    then removed g (reported g s)
    else reported g s

-- `v.(*KnockGroup)` panics at nil.
abbrev pub visit_item : ℕ → Option (Option KnockGroup) → Sweep → Outcome Sweep
unfolding visit
visit_item now (some (some g)) s = ok (visit now g s)
visit_item now _ s = panic

-- `UniqueSet.Each`: the items from the given place on, as many as were in the set at the start.
unfoldable pub each : ℕ → ℕ → ℕ → Sweep → Outcome Sweep
unfolding visit
each now zero i s = ok s
each now (suc n) i s = visit_item now (get_elem? s.items i) s >>= λ s'. each now n (suc i) s'

unfoldable pub living : ℕ → List (Option KnockGroup) → List KnockGroup
living (suc n) (some g ∷ xs) = g ∷ living n xs
living (suc n) (none ∷ xs) = living n xs
living _ _ = []

abbrev pub start_sweep : List KnockGroup → Sweep
start_sweep gs = record { items = map some gs; live = length gs; sent = [] }

unfoldable pub settle : Detector → Sweep → Detector
unfolding living
settle d s = record d { groups = living s.live s.items; reports = d.reports ++ s.sent }

-- Five seconds without a knock have passed.
unfoldable pub on_tick : ℕ → Detector → Outcome Detector
unfolding each settle
on_tick now d = do s ← each now (length d.groups) 0 (start_sweep d.groups); ok (settle d s)

-- The loop of `knockDetector` over knocks and the time since the one before, where the detector takes no
-- time of its own: each five seconds of waiting are a tick.
unfoldable pub ticks : ℕ → ℕ → Detector → Outcome Detector
unfolding on_tick
ticks zero now d = ok d
ticks (suc n) now d = on_tick (now + 5) d >>= λ d'. ticks n (now + 5) d'

-- `wait` is the time behind the last knock, at the end of which the context is done.
unfoldable pub run : ℕ → List (ℕ × Knock) → ℕ → Detector → Outcome Detector
unfolding ticks on_knock
run now [] wait d = ticks (wait / 5) now d
run now ((gap, k) ∷ ks) wait d =
    ticks (gap / 5) now d >>= λ d'. run (now + gap) ks wait (on_knock (now + gap) k d')
