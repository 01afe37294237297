-- ===== src/Ipp/Handler/Repeats.antt =====
-- services/ipp/message.go: which groups an answer repeats, and which it adds.
use honeytrap.Base.{
  ℕ, ◌≡◌, ◌≢◌, ◌⊎◌, inl, inr, refl, arith, false, ◌||◌, List, [], ◌∷◌, ◌==◌, Bool-cases, sym, subst,
}
use honeytrap.Base.Text.{Text}
use honeytrap.Ipp.Values.{Value, tag_of}
use honeytrap.Ipp.Message.{Group}
use honeytrap.Ipp.Handler.{kept, op_response, operation_groups}

-- The values with the tags of a character set and of a natural language, in order, and no other.
pub data IsPicked : List Value → List Value → Type 0 where
  no_value : IsPicked [] []
  picks :
      {v : Value} {vs ws : List Value}
      → (tag_of v ≡ 0x47) ⊎ (tag_of v ≡ 0x48)
      → IsPicked vs ws
      → IsPicked (v ∷ vs) (v ∷ ws)
  skips :
      {v : Value} {vs ws : List Value}
      → tag_of v ≢ 0x47
      → tag_of v ≢ 0x48
      → IsPicked vs ws
      → IsPicked (v ∷ vs) ws

-- The group that answers the first group of operation attributes, if there is one.
pub data IsRepeated : List Group → List Group → Type 0 where
  no_group : IsRepeated [] []
  repeats :
      {g : Group} {gs : List Group} {vs : List Value}
      → g.tag ≡ 1
      → IsPicked g.val vs
      → IsRepeated (g ∷ gs) (record { tag = 1; val = vs } ∷ [])
  passes : {g : Group} {gs hs : List Group} → g.tag ≢ 1 → IsRepeated gs hs → IsRepeated (g ∷ gs) hs

-- An empty group of printers where devices are asked for.
abbrev pub IsListed : ℕ → List Group → Type 0
IsListed op gs =
    ((op ≡ 0x400b) × (gs ≡ record { tag = 4; val = [] } ∷ [])) ⊎ ((op ≢ 0x400b) × (gs ≡ []))

kept-IsPicked : (vs : List Value) → IsPicked vs (kept vs)
unfolding kept
kept-IsPicked [] = no_value
kept-IsPicked (v ∷ vs) = elim (Bool-cases (tag_of v == 0x47 || tag_of v == 0x48)) [
  | inl holds ↦ rw holds (picks (ground arith) (kept-IsPicked vs))
  | inr fails ↦ rw fails (skips (ground arith) (ground arith) (kept-IsPicked vs))
]

pub op_response-IsRepeated : (gs : List Group) → IsRepeated gs (op_response gs)
unfolding op_response
op_response-IsRepeated [] = no_group
op_response-IsRepeated (g ∷ gs) = elim (Bool-cases (g.tag == 1)) [
  | inl holds ↦
      let first : g.tag ≡ 1 = ground arith in
      rw holds (
        subst (λ (n : ℕ). IsRepeated (g ∷ gs) (record { tag = n; val = kept g.val } ∷ []))
          (sym first) (repeats first (kept-IsPicked g.val)))
  | inr fails ↦ rw fails (passes (ground arith) (op_response-IsRepeated gs))
]

pub operation_groups-IsListed :
    (names : List Text) (op : ℕ) → op ≢ 11 → IsListed op (operation_groups names op)
unfolding operation_groups
operation_groups-IsListed names op differs =
    let other : (op == 11) ≡ false = ground arith in
    elim (Bool-cases (op == 0x400b)) [
      | inl devices ↦ rw (other, devices) (inl (ground arith, refl))
      | inr fails ↦ rw (other, fails) (inr (ground arith, refl))
    ]
