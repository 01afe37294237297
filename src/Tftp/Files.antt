-- ===== src/Tftp/Files.antt =====
-- services/tftp.go: the map of the files.
use honeytrap.Base.{
  ◌≡◌, ◌≢◌, refl, arith, sym, ◌∙◌, true, false, List, [], ◌∷◌, none, some, Bool-cases, inl, inr,
}
use honeytrap.Base.Text.{Text, text_eq, eq_of_text_eq}
use honeytrap.Tftp.{File, lookup, delete, put}

pub text_eq_refl : (s : Text) → text_eq s s ≡ true
unfolding text_eq
text_eq_refl [] = refl
text_eq_refl (c ∷ s) = ground (arith, text_eq_refl s)

text_eq_ne : (s t : Text) → s ≢ t → text_eq s t ≡ false
text_eq_ne s t differs = elim (Bool-cases (text_eq s t)) [
  | inl equal ↦ absurd (differs (eq_of_text_eq s t equal))
  | inr other ↦ other
]

pub lookup-delete : (a : Text) (files : List (Text × File)) → lookup a (delete a files) ≡ none
unfolding lookup delete
lookup-delete a [] = refl
lookup-delete a ((b, f) ∷ files) = elim (Bool-cases (text_eq b a)) [
  | inl equal ↦ rw equal (lookup-delete a files)
  | inr other ↦ rw (other, other) (lookup-delete a files)
]

pub lookup-delete_ne :
    (a b : Text) (files : List (Text × File)) → b ≢ a → lookup b (delete a files) ≡ lookup b files
unfolding lookup delete
lookup-delete_ne a b [] h = refl
lookup-delete_ne a b ((c, f) ∷ files) h = elim (Bool-cases (text_eq c a)) [
  | inl equal ↦
      let named : c ≡ a = eq_of_text_eq c a equal in
      let other : text_eq c b ≡ false = text_eq_ne c b (λ e. h (sym e ∙ named)) in
      rw (equal, other) (lookup-delete_ne a b files h)
  | inr differs ↦ rw (differs, lookup-delete_ne a b files h) refl
]

pub lookup-put :
    (a : Text) (f : File) (files : List (Text × File)) → lookup a (put a f files) ≡ some f
unfolding lookup
lookup-put a f files = rw (text_eq_refl a) refl

pub lookup-put_ne :
    (a b : Text) (f : File) (files : List (Text × File))
    → b ≢ a
    → lookup b (put a f files) ≡ lookup b files
unfolding lookup
lookup-put_ne a b f files h =
    let other : text_eq a b ≡ false = text_eq_ne a b (λ e. h (sym e)) in
    rw other (lookup-delete_ne a b files h)
