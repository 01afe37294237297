-- ===== src/Ipp/RoundTrip/Groups.antt =====
-- Groups of attributes that are written and read again.
use mathlib.Core.List.{append_assoc}
use honeytrap.Base.{
  ℕ, zero, suc, ◌+◌, ◌%◌, ◌≤◌, ◌<◌, ◌≡◌, inl, inr, refl, arith, true, false, List, [], ◌∷◌, ◌++◌,
  length, length-append, ◌==◌, ==_iff, Bool-cases, none, some, ap, ◌∙◌, sym, subst, ltb,
}
use honeytrap.Base.Bytes.{All, IsU16, IsU32}
use honeytrap.Base.Text.{Text}
use honeytrap.Base.Run.{returns}
use honeytrap.Decoder.{Decode, pure, advance, ◌>>=◌, byte, write_uint16, write_uint32, write_data}
use honeytrap.Decoder.Ahead.{Ahead, IsShort, bind_returns, advance-Ahead, byte_ahead}
use honeytrap.Decoder.Reads.{byte_then, bind_both}
use honeytrap.Ipp.Values.{
  Value, val_int, val_str, val_bool, val_range_int, tag_of, encode_value, encode_strs, decode_int,
  decode_str,
}
use honeytrap.Ipp.Message.{
  is_int_tag, is_str_tag, decode_value, encode_values, group_loop, cons_value,
}
use honeytrap.Ipp.RoundTrip.Values.{
  Stops, other, named, decode_str_ahead, decode_int_ahead, decode_ints_ahead,
}

-- A name of 1 to 32767 bytes.
abbrev pub IsName : Text → Type 0
IsName name = (0 < length name) × IsShort name

-- The attributes that the reader gives back: one or two numbers, or any strings, under a tag of theirs.
abbrev pub IsReadable : Value → Type 0
IsReadable (val_int tag name (v ∷ [])) = (is_int_tag tag ≡ true) × IsName name × IsU32 v
IsReadable (val_int tag name (v ∷ w ∷ [])) =
    (is_int_tag tag ≡ true) × IsName name × IsU32 v × IsU32 w
IsReadable (val_str tag name (v ∷ vs)) =
    (is_str_tag tag ≡ true) × IsName name × IsShort v × All IsShort vs
IsReadable _ = ⊥

abbrev pub count_of : Value → ℕ
count_of (val_int tag name val) = length val
count_of (val_str tag name val) = length val
count_of _ = 0

str_tag_cases : (t : ℕ) → is_str_tag t ≡ true → (is_int_tag t ≡ false) × ((t == 0x22) ≡ false)
str_tag_cases t h = (ground arith, ground arith)

int_tag_pos : (t : ℕ) → is_int_tag t ≡ true → 5 < t
int_tag_pos t h = ground arith

str_tag_pos : (t : ℕ) → is_str_tag t ≡ true → 5 < t
str_tag_pos t h = ground arith

as_int : (limit t : ℕ) (d : Decode) → is_int_tag t ≡ true → decode_value limit t d ≡ decode_int t d
unfolding decode_value
as_int limit t d h = rw h refl

as_str :
    (limit t : ℕ) (d : Decode) → is_str_tag t ≡ true → decode_value limit t d ≡ decode_str limit t d
unfolding decode_value
as_str limit t d h = let (not_int, not_bool) = str_tag_cases t h in rw (not_int, not_bool, h) refl

value_ahead :
    (limit : ℕ) (v : Value) (d : Decode) (rest : List ℕ)
    → IsReadable v
    → count_of v ≤ limit
    → Ahead d (encode_value v ++ rest)
    → Stops (tag_of v) rest
    → decode_value limit (tag_of v) (advance 1 d) ≡ returns (v, advance (length (encode_value v)) d)
unfolding encode_value write_data write_uint16 write_uint32
value_ahead limit (val_int tag name (v ∷ [])) d rest r c h s =
    let k =
      advance-Ahead d (tag ∷ [])
        (write_data name false ++ (write_uint16 4 ++ (write_uint32 v ++ rest)))
        (h.0 ∙ simp (append_assoc), h.1) in
    as_int limit tag (advance 1 d) r.0
    ∙ decode_int_ahead tag name v (advance 1 d) rest r.1.1 r.2 k s
    ∙ ground (arith, length-append name (write_uint16 4 ++ write_uint32 v))
value_ahead limit (val_int tag name (v ∷ w ∷ [])) d rest r c h s =
    let second : List ℕ = tag ∷ (write_uint16 0 ++ (write_uint16 4 ++ (write_uint32 w ++ []))) in
    let k =
      advance-Ahead d (tag ∷ [])
        (write_data name false ++ (write_uint16 4 ++ (write_uint32 v ++ (second ++ rest))))
        (h.0 ∙ simp (append_assoc), h.1) in
    as_int limit tag (advance 1 d) r.0
    ∙ decode_ints_ahead tag name v w (advance 1 d) rest r.1.1 r.2 r.3 k
    ∙ ground (arith, length-append name (write_uint16 4 ++ (write_uint32 v ++ second)))
value_ahead limit (val_str tag name (v ∷ vs)) d rest r c h s =
    let more : List ℕ = encode_strs tag name true vs in
    let k =
      advance-Ahead d (tag ∷ []) (write_data name false ++ (write_data v false ++ (more ++ rest)))
        (h.0 ∙ simp (append_assoc), h.1) in
    as_str limit tag (advance 1 d) r.0
    ∙ decode_str_ahead limit tag name v vs (advance 1 d) rest c r.1.1 (r.2, r.3) k s
    ∙ ground (arith, length-append name (write_data v false ++ more), length-append v more)
value_ahead limit (val_int tag name []) d rest r c h s = elim r [ ]
value_ahead limit (val_int tag name (v ∷ w ∷ x ∷ xs)) d rest r c h s = elim r [ ]
value_ahead limit (val_str tag name []) d rest r c h s = elim r [ ]
value_ahead limit (val_bool tag name val) d rest r c h s = elim r [ ]
value_ahead limit (val_range_int tag name low high) d rest r c h s = elim r [ ]

readable_tag : (v : Value) → IsReadable v → 5 < tag_of v
readable_tag (val_int tag name (v ∷ [])) r = int_tag_pos tag r.0
readable_tag (val_int tag name (v ∷ w ∷ [])) r = int_tag_pos tag r.0
readable_tag (val_str tag name (v ∷ vs)) r = str_tag_pos tag r.0
readable_tag (val_int tag name []) r = elim r [ ]
readable_tag (val_int tag name (v ∷ w ∷ x ∷ xs)) r = elim r [ ]
readable_tag (val_str tag name []) r = elim r [ ]
readable_tag (val_bool tag name val) r = elim r [ ]
readable_tag (val_range_int tag name low high) r = elim r [ ]

-- The bytes of an attribute begin with its tag and the length of its name.
Starts : ℕ → List ℕ → Type 0
Starts tag bytes =
    (l : ℕ) × (more : List ℕ) × IsU16 l
    × ((l == 0) ≡ false)
    × (bytes ≡ tag ∷ (write_uint16 l ++ more))

named_start :
    (tag : ℕ) (name body : List ℕ)
    → IsName name
    → Starts tag (tag ∷ (write_data name false ++ body))
unfolding Starts write_data write_uint16
named_start tag name body n = (length name % 65536, name ++ body, omega arith, ground arith, refl)

readable-Starts : (v : Value) → IsReadable v → Starts (tag_of v) (encode_value v)
unfolding encode_value
readable-Starts (val_int tag name (v ∷ [])) r = named_start tag name _ r.1
readable-Starts (val_int tag name (v ∷ w ∷ [])) r = named_start tag name _ r.1
readable-Starts (val_str tag name (v ∷ vs)) r = named_start tag name _ r.1
readable-Starts (val_int tag name []) r = elim r [ ]
readable-Starts (val_int tag name (v ∷ w ∷ x ∷ xs)) r = elim r [ ]
readable-Starts (val_str tag name []) r = elim r [ ]
readable-Starts (val_bool tag name val) r = elim r [ ]
readable-Starts (val_range_int tag name low high) r = elim r [ ]

start-Stops : (tag t : ℕ) (bytes rest : List ℕ) → Starts t bytes → Stops tag (bytes ++ rest)
unfolding Starts
start-Stops tag t bytes rest (l, more, u, nonzero, e) = elim (Bool-cases (t == tag)) [
  | inl equal ↦
      let at_tag : t ≡ tag = (==_iff t tag).0 equal in
      let written : bytes ++ rest ≡ tag ∷ (write_uint16 l ++ (more ++ rest)) =
        unfold write_uint16 in cc in
      subst (Stops tag) (sym written) (named l (more ++ rest) u nonzero refl)
  | inr differs ↦
      let written : bytes ++ rest ≡ t ∷ ((write_uint16 l ++ more) ++ rest) =
        ap (λ (b : List ℕ). b ++ rest) e in
      subst (Stops tag) (sym written) (other differs)
]

next-Stops :
    (v : Value) (vs : List Value) (t : ℕ) (rest : List ℕ)
    → IsReadable v
    → All IsReadable vs
    → t ≤ 5
    → Stops (tag_of v) (encode_values vs ++ (t ∷ rest))
unfolding encode_values
next-Stops v [] t rest r rs h = other (ground (arith, readable_tag v r))
next-Stops v (w ∷ ws) t rest r rs h =
    let behind : List ℕ = encode_values ws ++ (t ∷ rest) in
    subst (Stops (tag_of v)) (sym (append_assoc (encode_value w) (encode_values ws) (t ∷ rest)))
      (start-Stops (tag_of v) (tag_of w) (encode_value w) behind (readable-Starts w rs.0))

group-Stops :
    (limit fuel t : ℕ) (d : Decode) (rest : List ℕ)
    → t ≤ 5
    → Ahead d (t ∷ rest)
    → (byte >>= group_loop limit (suc fuel)) d ≡ returns (some [], advance 1 d)
group-Stops limit fuel t d rest h k =
    byte_then d rest t (group_loop limit (suc fuel)) k (λ k2. unfold group_loop in ground arith)

first_byte :
    (v : Value) (d : Decode) (rest : List ℕ)
    → IsReadable v
    → Ahead d (encode_value v ++ rest)
    → byte d ≡ returns (tag_of v, advance 1 d)
unfolding Starts
first_byte v d rest r h =
    let (l, more, u, nonzero, e) = readable-Starts v r in
    byte_ahead d (tag_of v) ((write_uint16 l ++ more) ++ rest)
      (h.0 ∙ ap (λ (b : List ℕ). b ++ rest) e, h.1)

-- A tag behind the delimiters, where no read has failed.
pub enters :
    (limit fuel t : ℕ) (d : Decode)
    → 5 < t
    → d.lasterror ≡ none
    → group_loop limit (suc fuel) t d
      ≡ (decode_value limit t >>= (λ v.
            byte >>= (λ next. group_loop limit fuel next >>= (λ more. pure (cons_value v more)))))
          d
unfolding group_loop
enters limit fuel t d h clean = let above : ltb 5 t ≡ true = ground arith in rw (above, clean) refl

-- One more attribute, in front of those that the loop reads.
group_more :
    (limit fuel : ℕ) (v : Value) (vs : List Value) (d : Decode) (behind : List ℕ)
    → IsReadable v
    → count_of v ≤ limit
    → d.lasterror ≡ none
    → Ahead d (encode_value v ++ behind)
    → Stops (tag_of v) behind
    → (n : ℕ)
    → ((d' : Decode)
        → d'.lasterror ≡ none
        → Ahead d' behind
        → (byte >>= group_loop limit fuel) d' ≡ returns (some vs, advance n d'))
    → (byte >>= group_loop limit (suc fuel)) d
      ≡ returns (some (v ∷ vs), advance (length (encode_value v) + n) d)
group_more limit fuel v vs d behind r c clean h s n ih =
    bind_returns byte (group_loop limit (suc fuel)) d (first_byte v d behind r h) ∙ read_one
  where
    read : Decode
    read = advance (length (encode_value v)) d

    read_one :
        group_loop limit (suc fuel) (tag_of v) (advance 1 d)
        ≡ returns (some (v ∷ vs), advance (length (encode_value v) + n) d)
    read_one =
        enters limit fuel (tag_of v) (advance 1 d) (readable_tag v r) clean
        ∙ bind_returns (decode_value limit (tag_of v)) _ (advance 1 d)
            (value_ahead limit v d behind r c h s)
        ∙ bind_both byte (group_loop limit fuel) (λ more. pure (cons_value v more)) read
            (ih read clean (advance-Ahead d (encode_value v) behind h))
        ∙ ground arith

-- The attributes of a group, up to the delimiter behind them.
pub group_values :
    (limit fuel : ℕ) (vs : List Value) (t : ℕ) (d : Decode) (rest : List ℕ)
    → length vs < fuel
    → All IsReadable vs
    → All (λ v. count_of v ≤ limit) vs
    → t ≤ 5
    → d.lasterror ≡ none
    → Ahead d (encode_values vs ++ (t ∷ rest))
    → (byte >>= group_loop limit fuel) d
      ≡ returns (some vs, advance (length (encode_values vs) + 1) d)
unfolding encode_values
group_values limit zero vs t d rest f r c k clean h = absurd (omega arith)
group_values limit (suc fuel) [] t d rest f r c k clean h = group-Stops limit fuel t d rest k h
group_values limit (suc fuel) (v ∷ vs) t d rest f r c k clean h =
    let behind : List ℕ = encode_values vs ++ (t ∷ rest) in
    group_more limit fuel v vs d behind r.0 c.0 clean
      (h.0 ∙ append_assoc (encode_value v) (encode_values vs) (t ∷ rest), h.1)
      (next-Stops v vs t rest r.0 r.1 k) (length (encode_values vs) + 1)
      (λ d' clean' h'. group_values limit fuel vs t d' rest (omega arith) r.1 c.1 k clean' h')
    ∙ ground (arith, length-append (encode_value v) (encode_values vs))
