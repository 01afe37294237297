-- ===== src/Canary/Knocks/Reports.antt =====
-- listener/canary/knock.go: what the detector reports, and when.
use honeytrap.Base.{
  ℕ, zero, suc, ◌+◌, ◌-◌, ◌≤◌, ◌≡◌, ◌⊎◌, inl, inr, refl, arith, ap, true, false, ◌&&◌, List, [],
  ◌∷◌, ◌++◌, length, ltb, leb, ◌==◌, Bool-cases, if◌then◌else◌, Option, none, some, map, ok, ◌>>=◌,
  ==_iff, length-map,
}
use honeytrap.Base.Bytes.{All}
use honeytrap.Canary.Knocks.{KnockGroup, Report, Detector}
use honeytrap.Canary.Knocks.Ticks.{
  shift, remove_live, removed, Sweep, is_within, visit, each, living, start_sweep, settle, on_tick,
}
use honeytrap.Canary.Knocks.Sweeps.{Live, Sent, Kept, IsItem, Going, each_ends}

abbrev pub Has : KnockGroup → List KnockGroup → Type 0
Has g [] = ⊥
Has g (x ∷ xs) = (x ≡ g) ⊎ Has g xs

start-Live : (g : KnockGroup) (gs : List KnockGroup) → Has g gs → Live g (length gs) (map some gs)
start-Live g [] h = elim h [ ]
start-Live g (x ∷ gs) (inl e) = inl (ap some e)
start-Live g (x ∷ gs) (inr h) = inr (start-Live g gs h)

start-All : (gs : List KnockGroup) → All IsItem (map some gs)
unfolding IsItem
start-All [] = tt
start-All (g ∷ gs) = (tt, start-All gs)

living-Has :
    (g : KnockGroup) (n : ℕ) (xs : List (Option KnockGroup)) → Live g n xs → Has g (living n xs)
unfolding living
living-Has g zero xs h = elim h [ ]
living-Has g (suc n) [] h = elim h [ ]
living-Has g (suc n) (none ∷ xs) (inl e) = absurd (cc e)
living-Has g (suc n) (none ∷ xs) (inr h) = living-Has g n xs h
living-Has g (suc n) (some x ∷ xs) (inl e) =
    inl (ap (λ (o : Option KnockGroup). elim o [ none ↦ x | some y ↦ y ]) e)
living-Has g (suc n) (some x ∷ xs) (inr h) = inr (living-Has g n xs h)

-- A tick never panics, though the items move under the loop, and loses no group: each group of the set
-- is still in it behind the tick, or is reported in the tick.
pub on_tick_keeps :
    (now : ℕ) (d : Detector)
    → (d' : Detector) × (sent : List Report) × (on_tick now d ≡ ok d')
      × (d'.reports ≡ d.reports ++ sent)
      × ((g : KnockGroup) → Has g d.groups → Has g d'.groups ⊎ Sent g sent)
unfolding on_tick settle Going
on_tick_keeps now d =
    let (s, ends, kept) =
      each_ends now (length d.groups) 0 (start_sweep d.groups)
        (omega (arith, length-map d.groups some), start-All d.groups) in
    (
      settle d s,
      s.sent,
      ap (λ r. r >>= λ s'. ok (settle d s')) ends,
      refl,
      λ g h. settled g s (kept g (inl (start-Live g d.groups h))),
    )
  where
    settled :
        (g : KnockGroup) (s : Sweep) → Kept g s → Has g (living s.live s.items) ⊎ Sent g s.sent
    settled g s (inl k) = inl (living-Has g s.live s.items k)
    settled g s (inr k) = inr k

-- A group that has been quiet for five seconds, and is alone in the set, is reported at the tick; it
-- leaves the set where its last knock is less than a minute old, and stays in it otherwise.
pub on_tick_reports :
    (now : ℕ) (d : Detector) (g : KnockGroup)
    → d.groups ≡ g ∷ []
    → g.last + 5 ≤ now
    → on_tick now d
      ≡ ok (record d {
        groups = if ltb now (g.last + 60) then [] else g ∷ [];
        reports =
            d.reports
            ++ (record {
              group = g.ident;
              ends = g.ends;
              duration = g.last - g.start;
              touches = g.count;
              ports = g.knocks;
            }
                ∷ []);
      })
unfolding on_tick each visit removed remove_live shift settle living
on_tick_reports now d g only due =
    let late : is_within 5 now g ≡ false = ground arith in
    let loud : leb g.count 100 && is_within 5 now g ≡ false = ground (arith, late) in
    let same : (g.ident == g.ident) ≡ true = (==_iff g.ident g.ident).1 refl in
    elim (Bool-cases (is_within 60 now g)) [
      | inl recent ↦ rw (only, loud, recent, same) refl
      | inr old ↦ rw (only, loud, old) refl
    ]
