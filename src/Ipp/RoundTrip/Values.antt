-- ===== src/Ipp/RoundTrip/Values.antt =====
-- Attributes that are written and read again.
use mathlib.Core.List.{append_assoc}
use honeytrap.Base.{
  ℕ, zero, suc, ◌+◌, ◌<◌, ◌≡◌, refl, arith, true, false, List, [], ◌∷◌, ◌++◌, length, length-append,
  ◌==◌, ==_iff, ◌∙◌,
}
use honeytrap.Base.Bytes.{All, IsU16, IsU32}
use honeytrap.Base.Text.{Text}
use honeytrap.Base.Int.{negsuc}
use honeytrap.Base.Run.{returns}
use honeytrap.Decoder.{
  Decode, pure, advance, ◌>>=◌, ◌>>◌, byte, seek, write_uint16, write_uint32, write_data,
}
use honeytrap.Decoder.Ahead.{Ahead, IsShort, bind_returns, fits, seek_back}
use honeytrap.Decoder.Reads.{byte_then, int16_then, int32_then, data_then, seek_then, bind_both}
use honeytrap.Ipp.Values.{
  val_int, val_str, encode_strs, second_int, decode_int, str_loop, decode_str,
}

-- What follows the values of an attribute: another tag, or the same tag with a name.
pub data Stops (tag : ℕ) : List ℕ → Type 0 where
  other : {t : ℕ} {rest : List ℕ} → (t == tag) ≡ false → Stops tag (t ∷ rest)
  named :
      {rest : List ℕ} (l : ℕ) (more : List ℕ)
      → IsU16 l
      → (l == 0) ≡ false
      → rest ≡ write_uint16 l ++ more
      → Stops tag (tag ∷ rest)

same : (n : ℕ) → (n == n) ≡ true
same n = (==_iff n n).1 refl

-- Without a second value the look ahead is undone.
second-Stops :
    (tag : ℕ) (d : Decode) (rest : List ℕ)
    → Ahead d rest
    → Stops tag rest
    → (byte >>= second_int tag) d ≡ returns ([], d)
second-Stops tag d [] h s = elim s [ ]
second-Stops tag d (t ∷ rest) h (other differs) = byte_then d rest t (second_int tag) h (λ k.
    unfold second_int in
    rw differs (seek_then (advance 1 d) rest 0 (λ _. pure []) (ground arith) k (ground arith)))
second-Stops tag d (_ ∷ rest) h (named l more u nonzero e) =
    byte_then d rest tag (second_int tag) h (λ k.
      unfold second_int in
      rw (same tag) (
        int16_then (advance 1 d) more l _ u (rw e at k) (λ k2. rw nonzero (
          seek_then (advance 2 (advance 1 d)) more 2 (λ _. pure []) (ground arith) k2
            (ground arith)))))

loop-Stops :
    (tag fuel : ℕ) (d : Decode) (rest : List ℕ)
    → Ahead d rest
    → Stops tag rest
    → (byte >>= str_loop (suc fuel) tag) d ≡ returns ([], advance 1 d)
loop-Stops tag fuel d [] h s = elim s [ ]
loop-Stops tag fuel d (t ∷ rest) h (other differs) =
    byte_then d rest t (str_loop (suc fuel) tag) h (λ k. unfold str_loop in rw differs refl)
loop-Stops tag fuel d (_ ∷ rest) h (named l more u nonzero e) =
    byte_then d rest tag (str_loop (suc fuel) tag) h (λ k.
      unfold str_loop in
      rw (same tag) (
        int16_then (advance 1 d) more l _ u (rw e at k) (λ k2. rw nonzero (
          seek_then (advance 2 (advance 1 d)) more 1 (λ _. pure []) (ground arith) k2
            (ground arith)))))

cons_ahead :
    (tag : ℕ) (v : Text) (vs : List Text) (name : Text) (d : Decode) (rest : List ℕ)
    → Ahead d (encode_strs tag name true (v ∷ vs) ++ rest)
    → Ahead d
        (tag ∷ (write_uint16 0 ++ (write_data v false ++ (encode_strs tag name true vs ++ rest))))
unfolding encode_strs write_data write_uint16
cons_ahead tag v vs name d rest h = (h.0 ∙ simp (append_assoc), h.1)

cons_length :
    (tag : ℕ) (v : Text) (vs : List Text) (name : Text)
    → length (encode_strs tag name true (v ∷ vs))
      ≡ 5 + length v + length (encode_strs tag name true vs)
unfolding encode_strs write_data write_uint16
cons_length tag v vs name = omega (arith, length-append v (encode_strs tag name true vs))

-- One more value, in front of those that the loop reads.
str_more :
    (tag fuel : ℕ) (v : Text) (vs : List Text) (name : Text) (d : Decode) (rest : List ℕ)
    → IsShort v
    → Ahead d (encode_strs tag name true (v ∷ vs) ++ rest)
    → ((d' : Decode)
        → Ahead d' (encode_strs tag name true vs ++ rest)
        → (byte >>= str_loop fuel tag) d'
          ≡ returns (vs, advance (length (encode_strs tag name true vs) + 1) d'))
    → (byte >>= str_loop (suc fuel) tag) d
      ≡ returns (v ∷ vs, advance (length (encode_strs tag name true (v ∷ vs)) + 1) d)
str_more tag fuel v vs name d rest s h ih =
    let behind : List ℕ = encode_strs tag name true vs ++ rest in
    byte_then d (write_uint16 0 ++ (write_data v false ++ behind)) tag (str_loop (suc fuel) tag)
      (cons_ahead tag v vs name d rest h)
      (λ k.
        unfold str_loop in
        rw (same tag) (
          int16_then (advance 1 d) (write_data v false ++ behind) 0 _ (omega arith) k (λ k2.
            data_then (advance 2 (advance 1 d)) behind v _ s k2 (λ k3.
              bind_both byte (str_loop fuel tag) (λ vals. pure (v ∷ vals))
                (advance (2 + length v) (advance 2 (advance 1 d))) (ih _ k3)
              ∙ ground (arith, cons_length tag v vs name)))))

-- The loop of a string attribute over the values that are left.
str_values :
    (tag fuel : ℕ) (vs : List Text) (name : Text) (d : Decode) (rest : List ℕ)
    → length vs < fuel
    → All IsShort vs
    → Ahead d (encode_strs tag name true vs ++ rest)
    → Stops tag rest
    → (byte >>= str_loop fuel tag) d
      ≡ returns (vs, advance (length (encode_strs tag name true vs) + 1) d)
str_values tag zero vs name d rest f s h stop = absurd (omega arith)
str_values tag (suc fuel) [] name d rest f s h stop =
    loop-Stops tag fuel d rest (unfold encode_strs in h) stop ∙ unfold encode_strs in ground arith
str_values tag (suc fuel) (v ∷ vs) name d rest f s h stop =
    str_more tag fuel v vs name d rest s.0 h
      (λ d' k. str_values tag fuel vs name d' rest (omega arith) s.1 k stop)

pub Stops-pos : {tag : ℕ} {rest : List ℕ} → Stops tag rest → 0 < length rest
Stops-pos (other e) = omega arith
Stops-pos (named l more u z e) = omega arith

-- The byte behind the values was read, and is put back.
pub step_back :
    {A : Type 0} (v : A) (d : Decode) (read rest : List ℕ)
    → Ahead d (read ++ rest)
    → 0 < length rest
    → (seek (negsuc 0) >> pure v) (advance (length read + 1) d)
      ≡ returns (v, advance (length read) d)
step_back v d read rest h p =
    bind_returns (seek (negsuc 0)) (λ _. pure v) (advance (length read + 1) d)
      (seek_back (advance (length read + 1) d) 0 (omega arith)
        (omega (arith, fits d (read ++ rest) h, length-append read rest)))
    ∙ ground arith

-- A string attribute with at least one value.
pub decode_str_ahead :
    (fuel tag : ℕ) (name v : Text) (vs : List Text) (d : Decode) (rest : List ℕ)
    → length vs < fuel
    → IsShort name
    → All IsShort (v ∷ vs)
    → Ahead d
        (write_data name false ++ (write_data v false ++ (encode_strs tag name true vs ++ rest)))
    → Stops tag rest
    → decode_str fuel tag d
      ≡ returns (
        val_str tag name (v ∷ vs),
        advance (4 + length name + length v + length (encode_strs tag name true vs)) d,
      )
unfolding decode_str
decode_str_ahead fuel tag name v vs d rest f n s h stop =
    data_then d (write_data v false ++ (encode_strs tag name true vs ++ rest)) name _ n h (λ k.
      data_then (advance (2 + length name) d) (encode_strs tag name true vs ++ rest) v _ s.0 k
        (λ k2.
          let d2 = advance (2 + length v) (advance (2 + length name) d) in
          bind_both byte (str_loop fuel tag)
            (λ more. seek (negsuc 0) >> pure (val_str tag name (v ∷ more))) d2
            (str_values tag fuel vs name d2 rest f s.1 k2 stop)
          ∙ step_back (val_str tag name (v ∷ vs)) d2 (encode_strs tag name true vs) rest k2
              (Stops-pos stop)
          ∙ ground arith))

-- An integer attribute with one value, and one with two.
pub decode_int_ahead :
    (tag : ℕ) (name : Text) (v : ℕ) (d : Decode) (rest : List ℕ)
    → IsShort name
    → IsU32 v
    → Ahead d (write_data name false ++ (write_uint16 4 ++ (write_uint32 v ++ rest)))
    → Stops tag rest
    → decode_int tag d ≡ returns (val_int tag name (v ∷ []), advance (8 + length name) d)
unfolding decode_int
decode_int_ahead tag name v d rest n u h stop =
    data_then d (write_uint16 4 ++ (write_uint32 v ++ rest)) name _ n h (λ k.
      int16_then (advance (2 + length name) d) (write_uint32 v ++ rest) 4 _ (omega arith) k (λ k2.
        int32_then (advance 2 (advance (2 + length name) d)) rest v _ u k2 (λ k3.
          bind_both byte (second_int tag) (λ more. pure (val_int tag name (v ∷ more)))
            (advance 4 (advance 2 (advance (2 + length name) d))) (second-Stops tag _ rest k3 stop)
          ∙ ground arith)))

second_again :
    (tag : ℕ) (name : Text) (w : ℕ) (d : Decode) (rest : List ℕ)
    → IsU32 w
    → Ahead d (tag ∷ (write_uint16 0 ++ (write_uint16 4 ++ (write_uint32 w ++ rest))))
    → (byte >>= second_int tag) d ≡ returns (w ∷ [], advance 9 d)
second_again tag name w d rest u h =
    byte_then d (write_uint16 0 ++ (write_uint16 4 ++ (write_uint32 w ++ rest))) tag
      (second_int tag) h
      (λ k.
        unfold second_int in
        rw (same tag) (
          int16_then (advance 1 d) (write_uint16 4 ++ (write_uint32 w ++ rest)) 0 _ (omega arith) k
            (λ k2.
              int16_then (advance 2 (advance 1 d)) (write_uint32 w ++ rest) 4 _ (omega arith) k2
                (λ k3.
                  int32_then (advance 2 (advance 2 (advance 1 d))) rest w _ u k3
                    (λ k4. ground arith)))))

pub decode_ints_ahead :
    (tag : ℕ) (name : Text) (v w : ℕ) (d : Decode) (rest : List ℕ)
    → IsShort name
    → IsU32 v
    → IsU32 w
    → Ahead d (
        write_data name false
        ++ (write_uint16 4
            ++ (write_uint32 v
                ++ (tag ∷ (write_uint16 0 ++ (write_uint16 4 ++ (write_uint32 w ++ rest)))))))
    → decode_int tag d ≡ returns (val_int tag name (v ∷ w ∷ []), advance (17 + length name) d)
unfolding decode_int
decode_ints_ahead tag name v w d rest n u x h =
    let second : List ℕ = tag ∷ (write_uint16 0 ++ (write_uint16 4 ++ (write_uint32 w ++ rest))) in
    data_then d (write_uint16 4 ++ (write_uint32 v ++ second)) name _ n h (λ k.
      int16_then (advance (2 + length name) d) (write_uint32 v ++ second) 4 _ (omega arith) k (λ k2.
        int32_then (advance 2 (advance (2 + length name) d)) second v _ u k2 (λ k3.
          bind_both byte (second_int tag) (λ more. pure (val_int tag name (v ∷ more)))
            (advance 4 (advance 2 (advance (2 + length name) d)))
            (second_again tag name w _ rest x k3)
          ∙ ground arith)))
