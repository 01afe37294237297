-- ===== src/Canary/Knocks/Unique.antt =====
-- listener/canary/unique-set.go: the items of a set are different from each other.
use honeytrap.Base.{
  ◌≡◌, Bool, true, false, List, [], ◌∷◌, ◌++◌, Option, none, some, Bool-cases, inl, inr,
}
use honeytrap.Base.Bytes.{All, All-append}
use honeytrap.Canary.Knocks.{find_same, added, add_item}

-- No item is the same as one in front of it.
abbrev pub IsUnique : {A : Type 0} → (A → A → Bool) → List A → Type 0
IsUnique same [] = Unit
IsUnique same (x ∷ xs) = All (λ y. same y x ≡ false) xs × IsUnique same xs

module _ {A : Type 0} (same : A → A → Bool) (item : A) where
  -- What the loop of `Add` finds.
  Found : List A → Option A → Type 0
  Found items none = All (λ x. same item x ≡ false) items
  Found items (some x) = same item x ≡ true

  find_same-Found : (items : List A) → Found items (find_same same item items)
  unfolding Found find_same
  find_same-Found [] = tt
  find_same-Found (x ∷ xs) = elim (Bool-cases (same item x)) [
    | inl equal ↦ rw equal equal
    | inr differs ↦ rw differs (behind differs (find_same same item xs) (find_same-Found xs))
  ]
    where
      behind : same item x ≡ false → (r : Option A) → Found xs r → Found (x ∷ xs) r
      behind differs none f = (differs, f)
      behind differs (some y) f = f

  IsUnique-append :
      (items : List A)
      → IsUnique same items
      → All (λ x. same item x ≡ false) items
      → IsUnique same (items ++ (item ∷ []))
  IsUnique-append [] u f = (tt, tt)
  IsUnique-append (x ∷ xs) u f =
      (All-append (λ y. same y x ≡ false) xs (item ∷ []) u.0 (f.0, tt), IsUnique-append xs u.1 f.1)

  -- `Add` keeps the items different from each other, and returns an item that is the same as the one that
  -- it was given, where that is the same as itself.
  pub add_item-IsUnique :
      (items : List A)
      → IsUnique same items
      → same item item ≡ true
      → IsUnique same (add_item same item items).0 × (same item (add_item same item items).1 ≡ true)
  unfolding add_item Found
  add_item-IsUnique items u self = by_result (find_same same item items) (find_same-Found items)
    where
      by_result :
          (r : Option A)
          → Found items r
          → IsUnique same (added item items r).0 × (same item (added item items r).1 ≡ true)
      by_result none f = (IsUnique-append items u f, self)
      by_result (some x) f = (u, f)
