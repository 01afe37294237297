-- ===== src/Base/Results.antt =====
-- How a call of Go code ends: with a value, with an error value, or with a run-time panic.
use Prim.Native.Nat.{ℕ, zero, suc, ◌+◌, ◌-◌, ◌≤◌, ◌<◌}
use mathlib.Core.Path.{◌≡◌, refl, ap}
use mathlib.Core.Logic.{◌≢◌}
use mathlib.Core.Bool.{Bool, true, false}
use mathlib.Core.List.{List, [], ◌∷◌, ◌++◌}
use native.Mathlib.Omega.{arith}
use honeytrap.Base.Tests.{leb, if◌then◌else◌}
use honeytrap.Base.Lists.{length, take, drop, length-drop, get_or}

-- The errors that the modelled packages return, by what went wrong.
pub data Error : Type 0 where
  header_too_short buffer_too_short missing_address bad_length bad_offset bad_option : Error
  invalid_checksum : Error

pub data Outcome {ℓ} (A : Type ℓ) : Type ℓ where
  ok : A → Outcome A
  err : Error → Outcome A
  panic : Outcome A

infixl 5 ◌>>=◌ ◌>>◌
abbrev pub ◌>>=◌ {ℓ κ} : {A : Type ℓ} {B : Type κ} → Outcome A → (A → Outcome B) → Outcome B
panic >>= f = panic
err e >>= f = err e
ok a >>= f = f a

abbrev pub ◌>>◌ {ℓ} : {B : Type ℓ} → Outcome (Unit {0}) → Outcome B → Outcome B
m >> k = m >>= λ _. k

-- `if bad { return err }`.
abbrev pub fail_if : Bool → Error → Outcome (Unit {0})
fail_if true e = err e
fail_if false e = ok tt

-- `b[i]`: out of range is a panic.
abbrev pub at : List ℕ → ℕ → Outcome ℕ
at [] i = panic
at (x ∷ xs) zero = ok x
at (x ∷ xs) (suc i) = at xs i

abbrev pub cons_outcome : ℕ → Outcome (List ℕ) → Outcome (List ℕ)
cons_outcome x (ok xs) = ok (x ∷ xs)
cons_outcome x (err e) = err e
cons_outcome x panic = panic

-- `b[:n]` on a slice whose capacity is its length.
abbrev pub upto : ℕ → List ℕ → Outcome (List ℕ)
upto zero xs = ok []
upto (suc n) [] = panic
upto (suc n) (x ∷ xs) = cons_outcome x (upto n xs)

-- `b[n:]`.
abbrev pub from : ℕ → List ℕ → Outcome (List ℕ)
from zero xs = ok xs
from (suc n) [] = panic
from (suc n) (x ∷ xs) = from n xs

-- `b[lo:hi]`.
abbrev pub slice : ℕ → ℕ → List ℕ → Outcome (List ℕ)
slice lo hi xs = if leb lo hi then from lo xs >>= upto (hi - lo) else panic

pub upto-append : (xs ys : List ℕ) → upto (length xs) (xs ++ ys) ≡ ok xs
upto-append [] ys = refl
upto-append (x ∷ xs) ys = ap (cons_outcome x) (upto-append xs ys)

pub from-append : (xs ys : List ℕ) → from (length xs) (xs ++ ys) ≡ ok ys
from-append [] ys = refl
from-append (x ∷ xs) ys = from-append xs ys

-- What neither panics nor fails returns a value.
pub returns {ℓ} :
    {A : Type ℓ} (r : Outcome A) → r ≢ panic → ((e : Error) → r ≢ err e) → (a : A) × (r ≡ ok a)
returns (ok a) p q = (a, refl)
returns (err e) p q = absurd (q e refl)
returns panic p q = absurd (p refl)

pub upto-length : (xs : List ℕ) → upto (length xs) xs ≡ ok xs
upto-length [] = refl
upto-length (x ∷ xs) = ap (cons_outcome x) (upto-length xs)

pub upto-take : (n : ℕ) (xs : List ℕ) → n ≤ length xs → upto n xs ≡ ok (take n xs)
upto-take zero xs h = refl
upto-take (suc n) [] h = elim h [ ]
upto-take (suc n) (x ∷ xs) h = ap (cons_outcome x) (upto-take n xs (omega arith))

pub from-drop : (n : ℕ) (xs : List ℕ) → n ≤ length xs → from n xs ≡ ok (drop n xs)
from-drop zero xs h = refl
from-drop (suc n) [] h = elim h [ ]
from-drop (suc n) (x ∷ xs) h = from-drop n xs (omega arith)

-- A slice within bounds.
pub slice_lem :
    (lo hi : ℕ) (xs : List ℕ)
    → lo ≤ hi
    → hi ≤ length xs
    → slice lo hi xs ≡ ok (take (hi - lo) (drop lo xs))
slice_lem lo hi xs h k = ground (
  arith,
  from-drop lo xs (omega arith),
  upto-take (hi - lo) (drop lo xs) (omega (arith, length-drop lo xs)),
)

pub from_suffix : (n : ℕ) (pre post : List ℕ) → n ≡ length pre → from n (pre ++ post) ≡ ok post
from_suffix n pre post e = rw e (from-append pre post)

pub slice_middle :
    (lo hi : ℕ) (pre area post : List ℕ)
    → lo ≡ length pre
    → hi ≡ length pre + length area
    → slice lo hi (pre ++ (area ++ post)) ≡ ok area
slice_middle lo hi pre area post e k = ground (arith, from_suffix lo pre (area ++ post), counted)
  where
    counted : upto (hi - lo) (area ++ post) ≡ ok area
    counted = let n : hi - lo ≡ length area = omega arith in rw n (upto-append area post)

pub at_within : (xs : List ℕ) (i : ℕ) → i < length xs → at xs i ≡ ok (get_or xs i 0)
at_within [] i h = elim h [ ]
at_within (x ∷ xs) zero h = refl
at_within (x ∷ xs) (suc i) h = at_within xs i (omega arith)

-- Inversion of a bind that returned a value.
pub >>=-eq-ok {ℓ κ} :
    {A : Type ℓ} {B : Type κ} (call : Outcome A) (next : A → Outcome B) {y : B}
    → (call >>= next) ≡ ok y
    → (x : A) × (call ≡ ok x) × (next x ≡ ok y)
>>=-eq-ok panic next e = cc
>>=-eq-ok (err _) next e = cc
>>=-eq-ok (ok x) next e = (x, refl, e)
