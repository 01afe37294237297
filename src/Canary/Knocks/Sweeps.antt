-- ===== src/Canary/Knocks/Sweeps.antt =====
-- listener/canary/knock.go: one sweep over the groups.
use honeytrap.Base.{
  ℕ, zero, suc, ◌+◌, ◌≡◌, ◌⊎◌, inl, inr, refl, arith, sym, ap, ◌∙◌, true, ◌&&◌, List, [], ◌∷◌, ◌++◌,
  length, drop, leb, Bool-cases, Option, none, some, get_elem?, ok, ==_iff,
}
use honeytrap.Base.Bytes.{All}
use honeytrap.Canary.Knocks.{KnockGroup, Report}
use honeytrap.Canary.Knocks.Ticks.{
  Sweep, shift, is_group, remove_live, report_of, removed, reported, is_within, visit, each,
}

unfoldable pub IsItem : Option KnockGroup → Type 0
IsItem none = ⊥
IsItem (some g) = Unit

-- A group among the first items.
abbrev pub Live : KnockGroup → ℕ → List (Option KnockGroup) → Type 0
Live g (suc n) (x ∷ xs) = (x ≡ some g) ⊎ Live g n xs
Live g _ _ = ⊥

-- Moving items down leaves no nil behind the place of the loop.
shift-All :
    (k n : ℕ) (xs : List (Option KnockGroup))
    → All IsItem (drop k xs)
    → All IsItem (drop k (shift n xs))
unfolding shift
shift-All k zero xs h = h
shift-All k (suc n) [] h = h
shift-All k (suc n) (x ∷ []) h = h
shift-All zero (suc n) (x ∷ y ∷ xs) h = (h.1.0, shift-All zero n (y ∷ xs) h.1)
shift-All (suc k) (suc n) (x ∷ y ∷ xs) h = shift-All k n (y ∷ xs) h

drop-All :
    (k : ℕ) (xs : List (Option KnockGroup)) → All IsItem (drop k xs) → All IsItem (drop (suc k) xs)
drop-All zero [] h = tt
drop-All zero (x ∷ xs) h = h.1
drop-All (suc k) [] h = tt
drop-All (suc k) (x ∷ xs) h = drop-All k xs h

length-shift : (n : ℕ) (xs : List (Option KnockGroup)) → length (shift n xs) ≡ length xs
unfolding shift
length-shift zero xs = refl
length-shift (suc n) [] = refl
length-shift (suc n) (x ∷ []) = refl
length-shift (suc n) (x ∷ y ∷ xs) = omega (arith, length-shift n (y ∷ xs))

length-remove :
    (ident n : ℕ) (xs : List (Option KnockGroup)) → length (remove_live ident n xs).0 ≡ length xs
unfolding remove_live
length-remove ident zero xs = refl
length-remove ident (suc n) [] = refl
length-remove ident (suc n) (x ∷ xs) = elim (Bool-cases (is_group ident x)) [
  | inl found ↦ rw found (length-shift n (none ∷ xs))
  | inr other ↦ rw other (omega (arith, length-remove ident n xs))
]

is_group_self : (g : KnockGroup) (x : Option KnockGroup) → x ≡ some g → is_group g.ident x ≡ true
is_group_self g x e = ap (is_group g.ident) e ∙ (==_iff g.ident g.ident).1 refl

item_of : Option (Option KnockGroup) → Option KnockGroup
item_of none = none
item_of (some x) = x

-- An item is removed at the place of the loop, or in front of it.
remove-All :
    (g : KnockGroup) (n i : ℕ) (xs : List (Option KnockGroup))
    → get_elem? xs i ≡ some (some g)
    → All IsItem (drop i xs)
    → All IsItem (drop (suc i) (remove_live g.ident n xs).0)
unfolding remove_live
remove-All g zero i xs e h = drop-All i xs h
remove-All g (suc n) i [] e h = tt
remove-All g (suc n) zero (x ∷ xs) e h =
    rw (is_group_self g x (unfold item_of in ap item_of e)) (shift-All 1 n (none ∷ xs) h.1)
remove-All g (suc n) (suc i) (x ∷ xs) e h = elim (Bool-cases (is_group g.ident x)) [
  | inl found ↦ rw found (shift-All (suc (suc i)) n (none ∷ xs) (drop-All i xs h))
  | inr other ↦ rw other (remove-All g n i xs e h)
]

shift-Live :
    (g : KnockGroup) (n : ℕ) (x : Option KnockGroup) (xs : List (Option KnockGroup))
    → Live g n xs
    → Live g n (shift n (x ∷ xs))
unfolding shift
shift-Live g zero x xs h = elim h [ ]
shift-Live g (suc n) x [] h = elim h [ ]
shift-Live g (suc n) x (y ∷ xs) (inl e) = inl e
shift-Live g (suc n) x (y ∷ xs) (inr h) = inr (shift-Live g n y xs h)

remove-Live :
    (g : KnockGroup) (ident n : ℕ) (xs : List (Option KnockGroup))
    → Live g n xs
    → Live g (remove_live ident n xs).1 (remove_live ident n xs).0 ⊎ (g.ident ≡ ident)
unfolding remove_live
remove-Live g ident zero xs h = elim h [ ]
remove-Live g ident (suc n) [] h = elim h [ ]
remove-Live g ident (suc n) (x ∷ xs) (inl e) = elim (Bool-cases (is_group ident x)) [
  | inl found ↦ inr ((==_iff g.ident ident).0 (sym (ap (is_group ident) e) ∙ found))
  | inr other ↦ rw other (inl (inl e))
]
remove-Live g ident (suc n) (x ∷ xs) (inr h) = elim (Bool-cases (is_group ident x)) [
  | inl found ↦ rw found (inl (shift-Live g n none xs h))
  | inr other ↦ rw other (deeper (remove-Live g ident n xs h))
]
  where
    deeper :
        Live g (remove_live ident n xs).1 (remove_live ident n xs).0 ⊎ (g.ident ≡ ident)
        → Live g (suc (remove_live ident n xs).1) (x ∷ (remove_live ident n xs).0)
          ⊎ (g.ident ≡ ident)
    deeper (inl k) = inl (inr k)
    deeper (inr k) = inr k

-- A report of the group.
abbrev pub Sent : KnockGroup → List Report → Type 0
Sent g [] = ⊥
Sent g (r ∷ rs) = (r.group ≡ g.ident) ⊎ Sent g rs

Sent-last :
    (g : KnockGroup) (rs : List Report) (r : Report) → r.group ≡ g.ident → Sent g (rs ++ (r ∷ []))
Sent-last g [] r h = inl h
Sent-last g (q ∷ rs) r h = inr (Sent-last g rs r h)

Sent-before : (g : KnockGroup) (rs qs : List Report) → Sent g rs → Sent g (rs ++ qs)
Sent-before g [] qs h = elim h [ ]
Sent-before g (r ∷ rs) qs (inl e) = inl e
Sent-before g (r ∷ rs) qs (inr h) = inr (Sent-before g rs qs h)

abbrev pub Kept : KnockGroup → Sweep → Type 0
Kept g s = Live g s.live s.items ⊎ Sent g s.sent

reported-Kept : (g h : KnockGroup) (s : Sweep) → Kept h s → Kept h (reported g s)
reported-Kept g h s (inl k) = inl k
reported-Kept g h s (inr k) = inr (Sent-before h s.sent (report_of g ∷ []) k)

removed-Kept : (g h : KnockGroup) (s : Sweep) → Kept h s → Kept h (removed g (reported g s))
unfolding removed
removed-Kept g h s (inr k) = inr (Sent-before h s.sent (report_of g ∷ []) k)
removed-Kept g h s (inl k) = elim (remove-Live h g.ident s.live s.items k) [
  | inl there ↦ inl there
  | inr gone ↦ inr (Sent-last h s.sent (report_of g) (sym gone))
]

-- What holds at a place of the loop.
unfoldable pub Going : ℕ → ℕ → Sweep → Type 0
Going i n s = (length s.items ≡ i + n) × All IsItem (drop i s.items)

-- One visit goes on to the next place, and loses no group.
Visited : ℕ → ℕ → Sweep → Sweep → Type 0
Visited i n s s' = Going (suc i) n s' × ((h : KnockGroup) → Kept h s → Kept h s')

visit-Visited :
    (now i n : ℕ) (g : KnockGroup) (s : Sweep)
    → Going i (suc n) s
    → get_elem? s.items i ≡ some (some g)
    → Visited i n s (visit now g s)
unfolding visit removed Going Visited
visit-Visited now i n g s (size, items) e =
    elim (Bool-cases (leb g.count 100 && is_within 5 now g)) [
      | inl quiet ↦ rw quiet ((omega arith, drop-All i s.items items), λ h k. k)
      | inr due ↦ elim (Bool-cases (is_within 60 now g)) [
        | inl recent ↦
            rw (due, recent)
              (
                (
                  omega (arith, length-remove g.ident s.live s.items),
                  remove-All g s.live i s.items e items,
                ),
                λ h k. removed-Kept g h s k,
              )
        | inr old ↦
            rw (due, old) ((omega arith, drop-All i s.items items), λ h k. reported-Kept g h s k)
      ]
    ]

item_at :
    (i n : ℕ) (xs : List (Option KnockGroup))
    → length xs ≡ i + suc n
    → All IsItem (drop i xs)
    → (g : KnockGroup) × (get_elem? xs i ≡ some (some g))
unfolding IsItem
item_at i n [] e h = absurd (omega arith)
item_at zero n (none ∷ xs) e h = elim h.0 [ ]
item_at zero n (some g ∷ xs) e h = (g, refl)
item_at (suc i) n (x ∷ xs) e h = item_at i n xs (omega arith) h

pub each_ends :
    (now n i : ℕ) (s : Sweep)
    → Going i n s
    → (s' : Sweep) × (each now n i s ≡ ok s') × ((h : KnockGroup) → Kept h s → Kept h s')
unfolding each Going Visited
each_ends now zero i s going = (s, refl, λ h k. k)
each_ends now (suc n) i s going =
    let (g, e) = item_at i n s.items going.0 going.1 in
    let (next, kept) = visit-Visited now i n g s going e in
    let (s', run', kept') = each_ends now n (suc i) (visit now g s) next in
    (s', rw e run', λ h k. kept' h (kept h k))
