-- ===== src/Base/Buffer.antt =====
-- Byte buffers that are made full of zeros and then written into.
use Prim.Native.Nat.{ℕ, zero, suc, ◌+◌}
use mathlib.Core.Path.{◌≡◌, refl, ap, ◌∙◌}
use mathlib.Core.List.{List, [], ◌∷◌, ◌++◌}
use native.Mathlib.Nat.{suc-add, zero-add}
use honeytrap.Base.Bytes.{All}
use honeytrap.Base.Lists.{length, replicate}

-- `make([]byte, n)`.
abbrev pub zeros : ℕ → List ℕ
zeros n = replicate n 0

-- `copy(dst[i:], src)`: as many bytes as both have room for.
abbrev pub copy_at : ℕ → List ℕ → List ℕ → List ℕ
copy_at zero [] dst = dst
copy_at zero (x ∷ xs) [] = []
copy_at zero (x ∷ xs) (y ∷ ys) = x ∷ copy_at zero xs ys
copy_at (suc i) src [] = []
copy_at (suc i) src (y ∷ ys) = y ∷ copy_at i src ys

-- `dst[i] = v` within bounds.
abbrev pub store_at : ℕ → ℕ → List ℕ → List ℕ
store_at i v dst = copy_at i (v ∷ []) dst

pub zeros-add : (m n : ℕ) → zeros (m + n) ≡ zeros m ++ zeros n
zeros-add zero n = ap zeros (zero-add n)
zeros-add (suc m) n = ap zeros (suc-add m n) ∙ ap (λ (t : List ℕ). 0 ∷ t) (zeros-add m n)

-- A copy over as many zeros as there are bytes.
pub copy_at-zeros : (src rest : List ℕ) → copy_at 0 src (zeros (length src) ++ rest) ≡ src ++ rest
copy_at-zeros [] rest = refl
copy_at-zeros (x ∷ xs) rest = ap (λ (t : List ℕ). x ∷ t) (copy_at-zeros xs rest)

pub copy_at-zeros_all : (src : List ℕ) → copy_at 0 src (zeros (length src)) ≡ src
copy_at-zeros_all [] = refl
copy_at-zeros_all (x ∷ xs) = ap (λ (t : List ℕ). x ∷ t) (copy_at-zeros_all xs)

-- A copy behind a prefix leaves the prefix alone.
pub copy_at-append :
    (pre : List ℕ) (n : ℕ) (src dst : List ℕ)
    → copy_at (length pre + n) src (pre ++ dst) ≡ pre ++ copy_at n src dst
copy_at-append [] n src dst = ap (λ (i : ℕ). copy_at i src dst) (zero-add n)
copy_at-append (x ∷ xs) n src dst =
    rw suc-add (ap (λ (t : List ℕ). x ∷ t) (copy_at-append xs n src dst))

pub length-copy_at : (i : ℕ) (src dst : List ℕ) → length (copy_at i src dst) ≡ length dst
length-copy_at zero [] dst = refl
length-copy_at zero (x ∷ xs) [] = refl
length-copy_at zero (x ∷ xs) (y ∷ ys) = ap suc (length-copy_at zero xs ys)
length-copy_at (suc i) src [] = refl
length-copy_at (suc i) src (y ∷ ys) = ap suc (length-copy_at i src ys)

-- A copy of more bytes than there is room for keeps the first ones.
pub copy_at-zeros_prefix : (src more : List ℕ) → copy_at 0 (src ++ more) (zeros (length src)) ≡ src
copy_at-zeros_prefix [] [] = refl
copy_at-zeros_prefix [] (y ∷ ys) = refl
copy_at-zeros_prefix (x ∷ xs) more = ap (λ (t : List ℕ). x ∷ t) (copy_at-zeros_prefix xs more)

pub All-copy_at {κ} :
    (P : ℕ → Type κ) (i : ℕ) (src dst : List ℕ) → All P src → All P dst → All P (copy_at i src dst)
All-copy_at P zero [] dst h k = k
All-copy_at P zero (x ∷ xs) [] h k = k
All-copy_at P zero (x ∷ xs) (y ∷ ys) h k = (h.0, All-copy_at P zero xs ys h.1 k.1)
All-copy_at P (suc i) src [] h k = k
All-copy_at P (suc i) src (y ∷ ys) h k = (k.0, All-copy_at P i src ys h k.1)
