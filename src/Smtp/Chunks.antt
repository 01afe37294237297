-- ===== src/Smtp/Chunks.antt =====
-- services/smtp/conn.go: a message that comes in chunks, by BDAT.
use honeytrap.Base.{
  ◌≡◌, refl, arith, sym, ap, ◌∙◌, true, false, List, [], ◌∷◌, ◌++◌, length, length-append, take,
  drop, ltb, ◌==◌, some,
}
use mathlib.Core.List.{append_assoc}
use honeytrap.Base.Bytes.{All, All-append}
use honeytrap.Base.Run.{returns}
use honeytrap.Base.Text.{Text, codes, to_upper, text_eq, split}
use honeytrap.Base.Lines.{has_prefix, IsLine}
use honeytrap.Smtp.{
  bad_chunks, Env, Conn, loop_state, mail_from_state, print_line, parse_count, reset,
}
use honeytrap.Smtp.Session.{
  accepted, accept, copied, on_parts, on_bdat, mail_from_line, or_leave, step,
}
use honeytrap.Smtp.Delivery.{line_of, Reaches, stops, goes, took, reads}

-- A number that the server reads as that of the bytes, without a blank.
abbrev pub IsCount : Text → Text → Type 0
IsCount count bytes =
    IsLine count × All (λ c. (c == 32) ≡ false) count × (parse_count count ≡ some (length bytes))

-- The chunks before the last: their numbers as written, and their bytes.
abbrev pub Chunks : Type 0
Chunks = List (Text × Text)

abbrev pub chunk_lines : Chunks → Text → Text
chunk_lines [] rest = rest
chunk_lines ((count, bytes) ∷ chunks) rest =
    line_of (codes "BDAT " ++ count) (bytes ++ chunk_lines chunks rest)

abbrev pub last_line : Text → Text → Text → Text
last_line count bytes rest = line_of (codes "BDAT " ++ (count ++ codes " LAST")) (bytes ++ rest)

abbrev pub bytes_of : Chunks → Text
bytes_of [] = []
bytes_of ((count, bytes) ∷ chunks) = bytes ++ bytes_of chunks

split-plain : (s : Text) → All (λ c. (c == 32) ≡ false) s → split 32 s ≡ s ∷ []
unfolding split
split-plain [] h = refl
split-plain (c ∷ s) h = rw (h.0, split-plain s h.1) refl

split-blank :
    (s t : Text) → All (λ c. (c == 32) ≡ false) s → split 32 (s ++ (32 ∷ t)) ≡ s ∷ split 32 t
unfolding split
split-blank [] t h = refl
split-blank (c ∷ s) t h = rw (h.0, split-blank s t h.1) refl

take-append : (xs ys : Text) → take (length xs) (xs ++ ys) ≡ xs
take-append [] ys = refl
take-append (x ∷ xs) ys = ap (λ (zs : Text). x ∷ zs) (take-append xs ys)

drop-append : (xs ys : Text) → drop (length xs) (xs ++ ys) ≡ ys
drop-append [] ys = refl
drop-append (x ∷ xs) ys = drop-append xs ys

chunk_parts :
    (count : Text)
    → All (λ c. (c == 32) ≡ false) count
    → split 32 (codes "BDAT " ++ count) ≡ codes "BDAT" ∷ (count ∷ [])
chunk_parts count h =
    split-blank (codes "BDAT") count (refl, (refl, (refl, (refl, tt))))
    ∙ ap (λ (ps : List Text). codes "BDAT" ∷ ps) (split-plain count h)

last_parts :
    (count : Text)
    → All (λ c. (c == 32) ≡ false) count
    → split 32 (codes "BDAT " ++ (count ++ codes " LAST"))
      ≡ codes "BDAT" ∷ (count ∷ (codes "LAST" ∷ []))
last_parts count h =
    split-blank (codes "BDAT") (count ++ codes " LAST") (refl, (refl, (refl, (refl, tt))))
    ∙ ap (λ (ps : List Text). codes "BDAT" ∷ ps)
        (split-blank count (codes "LAST") h
          ∙ ap (λ (ps : List Text). count ∷ ps)
              (split-plain (codes "LAST") (refl, (refl, (refl, (refl, tt))))))

module _ {A H : Type 0} (env : Env A H) where
  -- The connection behind the bytes of a chunk, with the given buffer.
  abbrev behind : Text → Text → Conn A H → Conn A H
  behind buffer rest c = record c { input = rest; msg = record c.msg { buffer = buffer } }

  copied-chunk :
      (bytes rest : Text) (c : Conn A H)
      → c.input ≡ bytes ++ rest
      → copied env false (some (length bytes)) c
        ≡ returns (
          some mail_from_state,
          print_line (codes "250 Ok") (behind (c.msg.buffer ++ bytes) rest c),
        )
  unfolding copied
  copied-chunk bytes rest c e =
      let enough : ltb (length (bytes ++ rest)) (length bytes) ≡ false =
        ground (arith, length-append bytes rest) in
      rw (e, take-append bytes rest, drop-append bytes rest, enough) (unfold print_line in refl)

  copied-last :
      (bytes rest : Text) (c : Conn A H)
      → c.input ≡ bytes ++ rest
      → copied env true (some (length bytes)) c
        ≡ accept env bad_chunks (c.msg.buffer ++ bytes) (behind [] rest c)
  unfolding copied
  copied-last bytes rest c e =
      let enough : ltb (length (bytes ++ rest)) (length bytes) ≡ false =
        ground (arith, length-append bytes rest) in
      rw (e, take-append bytes rest, drop-append bytes rest, enough) (unfold accept in refl)

  chunk_round :
      (count bytes rest : Text) (c : Conn A H)
      → IsCount count bytes
      → c.input ≡ line_of (codes "BDAT " ++ count) (bytes ++ rest)
      → step env mail_from_state c
        ≡ returns (
          some mail_from_state,
          print_line (codes "250 Ok") (
              behind
                (c.msg.buffer ++ bytes)
                rest
                (took env (codes "BDAT " ++ count) (bytes ++ rest) c)),
        )
  unfolding step mail_from_line to_upper has_prefix on_bdat on_parts
  chunk_round count bytes rest c is e =
      let line : Text = codes "BDAT " ++ count in
      let next : Conn A H = took env line (bytes ++ rest) c in
      ap (or_leave (mail_from_line env)) (
        reads env line (bytes ++ rest) c
          ((refl, refl), ((refl, refl), ((refl, refl), ((refl, refl), ((refl, refl), is.0))))) e)
      ∙ ap (λ ps. on_parts env ps next) (chunk_parts count is.1)
      ∙ ap (λ n. copied env false n next) is.2
      ∙ copied-chunk bytes rest next refl

  -- The state behind the last chunk.
  handed : Text → Text → H → Text → Conn A H → Conn A H
  unfolding reset
  handed text rest header body c =
      let d = print_line (codes "250 Ok : queued as +" ++ env.hash text) (behind [] rest c) in
      reset (record d {
        served = c.served ++ (record c.msg { header = some header; buffer = []; body = body } ∷ []);
      })

  last_round :
      (count bytes rest : Text) (header : H) (body : Text) (c : Conn A H)
      → IsCount count bytes
      → env.read_message (c.msg.buffer ++ bytes) ≡ some (header, body)
      → c.input ≡ last_line count bytes rest
      → step env mail_from_state c
        ≡ returns (
          some loop_state,
          handed
              (c.msg.buffer ++ bytes)
              rest
              header
              body
              (took env (codes "BDAT " ++ (count ++ codes " LAST")) (bytes ++ rest) c),
        )
  unfolding step mail_from_line to_upper has_prefix on_bdat on_parts accept accepted handed
      print_line text_eq
  last_round count bytes rest header body c is message e =
      let line : Text = codes "BDAT " ++ (count ++ codes " LAST") in
      let next : Conn A H = took env line (bytes ++ rest) c in
      let ends : IsLine (count ++ codes " LAST") =
        All-append _ count (codes " LAST") is.0
          ((refl, refl), ((refl, refl), ((refl, refl), ((refl, refl), ((refl, refl), tt))))) in
      ap (or_leave (mail_from_line env)) (
        reads env line (bytes ++ rest) c
          ((refl, refl), ((refl, refl), ((refl, refl), ((refl, refl), ((refl, refl), ends))))) e)
      ∙ ap (λ ps. on_parts env ps next) (last_parts count is.1)
      ∙ ap (λ n. copied env true n next) is.2
      ∙ copied-last bytes rest next refl
      ∙ rw message refl

  -- A message in any number of chunks, each announced by BDAT with the number of its bytes and the last
  -- with LAST, is handed to the handlers once, with the sender and the recipients given before and an empty
  -- buffer, where what the buffer held and the bytes of all chunks, in order, can be read by net/mail; what
  -- follows is left to read.
  pub chunks-Reaches :
      (chunks : Chunks) (count bytes rest : Text) (header : H) (body : Text) (c : Conn A H)
      → All (λ (p : Text × Text). IsCount p.0 p.1) chunks
      → IsCount count bytes
      → env.read_message (c.msg.buffer ++ (bytes_of chunks ++ bytes)) ≡ some (header, body)
      → c.input ≡ chunk_lines chunks (last_line count bytes rest)
      → (d : Conn A H) × Reaches env mail_from_state c loop_state d
        × (d.served
            ≡ c.served ++ (record c.msg { header = some header; buffer = []; body = body } ∷ []))
        × (d.input ≡ rest)
  unfolding handed print_line reset
  chunks-Reaches [] count bytes rest header body c are is message e =
      (_, goes (last_round count bytes rest header body c is message e) stops, refl, refl)
  chunks-Reaches ((n, b) ∷ chunks) count bytes rest header body c are is message e =
      let more : Text = chunk_lines chunks (last_line count bytes rest) in
      let next : Conn A H =
        print_line (codes "250 Ok")
          (behind (c.msg.buffer ++ b) more (took env (codes "BDAT " ++ n) (b ++ more) c)) in
      let all : (c.msg.buffer ++ b) ++ (bytes_of chunks ++ bytes)
          ≡ c.msg.buffer ++ ((b ++ bytes_of chunks) ++ bytes) =
        append_assoc c.msg.buffer b (bytes_of chunks ++ bytes)
        ∙ ap (λ (s : Text). c.msg.buffer ++ s) (sym (append_assoc b (bytes_of chunks) bytes)) in
      let (d, path, served, input) =
        chunks-Reaches chunks count bytes rest header body next are.1 is
          (ap env.read_message all ∙ message) refl in
      (d, goes (chunk_round n b more c are.0 e) path, served, input)
