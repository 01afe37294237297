-- ===== src/Tftp/Uploads.antt =====
-- services/tftp.go: files that are uploaded in blocks.
use honeytrap.Base.{
  ℕ, zero, suc, ◌≤◌, ◌<◌, ◌≡◌, refl, arith, sym, ap, subst, ◌∙◌, true, false, List, [], ◌∷◌, ◌++◌,
  map, length, take, ◌==◌, none, some,
}
use mathlib.Core.List.{append_assoc}
use honeytrap.Base.Bytes.{All}
use honeytrap.Base.Text.{Text}
use honeytrap.Tftp.{
  with_filename, on_file, File, tftp_write, tftp_write_file, Service, Datagram, lookup, put,
  read_string, with_names, on_write, on_block, on_data, on_packet, handle, handle_all, reply,
}
use honeytrap.Tftp.Files.{lookup-delete, lookup-put}

take_all : (n : ℕ) (xs : List ℕ) → length xs ≤ n → take n xs ≡ xs
take_all zero [] h = refl
take_all (suc n) [] h = refl
take_all zero (x ∷ xs) h = absurd (omega arith)
take_all (suc n) (x ∷ xs) h = ap (λ (ys : List ℕ). x ∷ ys) (take_all n xs (omega arith))

-- A block of a file, with the two bytes of its number.
pub record Block : Type 0 where
  pub hi : ℕ
  pub lo : ℕ
  pub content : List ℕ

abbrev pub data_of : Text → Block → Datagram
data_of addr b = record {
  addr = addr;
  is_udp = true;
  allowed = true;
  bytes = 0 ∷ 3 ∷ b.hi ∷ b.lo ∷ b.content;
}

abbrev pub contents : List Block → List ℕ
contents [] = []
contents (b ∷ bs) = b.content ++ contents bs

module _ (addr : Text) where
  block_taken :
      (b : Block) (file : File) (s : Service)
      → lookup addr s.buffers ≡ some file
      → length b.content ≤ 512
      → handle (data_of addr b) s ≡ on_block addr b.hi b.lo b.content file s
  unfolding handle on_packet on_data on_file
  block_taken b file s there size = rw (there, take_all 512 b.content size) refl

  -- The file goes on with a full block.
  grown : Block → File → Service → Service
  grown b file s = reply addr (0 ∷ 4 ∷ b.hi ∷ b.lo ∷ []) (record s {
    buffers = put addr (record file { content = file.content ++ b.content }) s.buffers;
  })

  full_block :
      (b : Block) (file : File) (s : Service)
      → lookup addr s.buffers ≡ some file
      → length b.content ≡ 512
      → handle (data_of addr b) s ≡ grown b file s
  unfolding grown on_block
  full_block b file s there size =
      let full : (length b.content == 512) ≡ true = ground arith in
      block_taken b file s there (omega arith) ∙ rw full refl

  last_block :
      (b : Block) (file : File) (s : Service)
      → lookup addr s.buffers ≡ some file
      → length b.content < 512
      → ((handle (data_of addr b) s).sent
          ≡ s.sent ++ (tftp_write_file (record file { content = file.content ++ b.content }) ∷ []))
        × (lookup addr (handle (data_of addr b) s).buffers ≡ none)
  unfolding on_block
  last_block b file s there size =
      let short : (length b.content == 512) ≡ false = ground arith in
      let taken = block_taken b file s there (omega arith) in
      (
        ap (λ (t : Service). t.sent) taken ∙ rw short refl,
        ap (λ (t : Service). lookup addr t.buffers) taken
            ∙ rw short (
                lookup-delete addr
                  (put addr (record file { content = file.content ++ b.content }) s.buffers)),
      )

  Uploaded : List Datagram → File → List ℕ → Service → Type 0
  Uploaded ds file added s =
      ((handle_all ds s).sent
        ≡ s.sent ++ (tftp_write_file (record file { content = file.content ++ added }) ∷ []))
      × (lookup addr (handle_all ds s).buffers ≡ none)

  one_more :
      (b : Block) (ds : List Datagram) (file : File) (added : List ℕ) (s : Service)
      → lookup addr s.buffers ≡ some file
      → length b.content ≡ 512
      → Uploaded ds (record file { content = file.content ++ b.content }) added (grown b file s)
      → Uploaded (data_of addr b ∷ ds) file (b.content ++ added) s
  unfolding Uploaded handle_all grown
  one_more b ds file added s there size up =
      let step = full_block b file s there size in
      (
        ap (λ (t : Service). (handle_all ds t).sent) step
            ∙ up.0
            ∙ ap (λ (c : List ℕ). s.sent ++ (tftp_write_file (record file { content = c }) ∷ []))
                (append_assoc file.content b.content added),
        ap (λ (t : Service). lookup addr (handle_all ds t).buffers) step ∙ up.1,
      )

  upload_blocks :
      (bs : List Block) (last : Block) (file : File) (s : Service)
      → lookup addr s.buffers ≡ some file
      → All (λ (b : Block). length b.content ≡ 512) bs
      → length last.content < 512
      → Uploaded
          (map (data_of addr) bs ++ (data_of addr last ∷ []))
          file
          (contents bs ++ last.content)
          s
  upload_blocks [] last file s there full short =
      unfold Uploaded handle_all in last_block last file s there short
  upload_blocks (b ∷ bs) last file s there full short =
      let next : File = record file { content = file.content ++ b.content } in
      let ds : List Datagram = map (data_of addr) bs ++ (data_of addr last ∷ []) in
      let up =
        upload_blocks bs last next (grown b file s) (unfold grown in lookup-put addr next s.buffers)
          full.1 short in
      subst (λ (c : List ℕ). Uploaded (data_of addr b ∷ ds) file c s)
        (sym (append_assoc b.content (contents bs) last.content))
        (one_more b ds file (contents bs ++ last.content) s there full.0 up)

read_name :
    (name rest : List ℕ)
    → All (λ c. (c == 0) ≡ false) name
    → read_string (name ++ (0 ∷ rest)) ≡ some (name ++ (0 ∷ []), rest)
unfolding read_string
read_name [] rest h = refl
read_name (c ∷ name) rest h = rw (h.0, read_name name rest h.1) refl

abbrev pub write_request : Text → Text → Text → Datagram
write_request addr filename mode = record {
  addr = addr;
  is_udp = true;
  allowed = true;
  bytes = 0 ∷ 2 ∷ (filename ++ (0 ∷ (mode ++ (0 ∷ []))));
}

request_taken :
    (addr filename mode : Text) (s : Service)
    → All (λ c. (c == 0) ≡ false) filename
    → All (λ c. (c == 0) ≡ false) mode
    → handle (write_request addr filename mode) s
      ≡ on_write addr (filename ++ (0 ∷ [])) (mode ++ (0 ∷ [])) s
unfolding handle on_packet with_names with_filename
request_taken addr filename mode s f m =
    rw (read_name filename (mode ++ (0 ∷ [])) f, read_name mode [] m) refl

-- A write request that the limiter lets through, blocks of 512 bytes and a shorter one are reported as the
-- request and then as one file with the bytes of all blocks in the order of their arrival, whatever the
-- numbers of the blocks are; the zero at the end of the name and of the mode is part of what is reported,
-- and the address has no open file afterwards.
pub handle_all_upload :
    (addr filename mode : Text) (bs : List Block) (last : Block) (s : Service)
    → All (λ c. (c == 0) ≡ false) filename
    → All (λ c. (c == 0) ≡ false) mode
    → All (λ (b : Block). length b.content ≡ 512) bs
    → length last.content < 512
    → ((handle_all
          (write_request addr filename mode ∷ (map (data_of addr) bs ++ (data_of addr last ∷ [])))
          s).sent
        ≡ s.sent
          ++ (tftp_write (filename ++ (0 ∷ [])) (mode ++ (0 ∷ []))
              ∷ (tftp_write_file (record {
                filename = filename ++ (0 ∷ []);
                mode = mode ++ (0 ∷ []);
                content = contents bs ++ last.content;
              })
                  ∷ [])))
      × (lookup addr
            (handle_all
              (write_request addr filename mode
                ∷ (map (data_of addr) bs ++ (data_of addr last ∷ [])))
              s).buffers
          ≡ none)
unfolding handle_all Uploaded on_write
handle_all_upload addr filename mode bs last s f m full short =
    let file : File = record {
      filename = filename ++ (0 ∷ []);
      mode = mode ++ (0 ∷ []);
      content = [];
    } in
    let ds : List Datagram = map (data_of addr) bs ++ (data_of addr last ∷ []) in
    let started : Service = on_write addr (filename ++ (0 ∷ [])) (mode ++ (0 ∷ [])) s in
    let step = request_taken addr filename mode s f m in
    let up = upload_blocks addr bs last file started (lookup-put addr file s.buffers) full short in
    (
      ap (λ (t : Service). (handle_all ds t).sent) step
          ∙ up.0
          ∙ append_assoc s.sent (tftp_write (filename ++ (0 ∷ [])) (mode ++ (0 ∷ [])) ∷ [])
              (tftp_write_file (record file { content = contents bs ++ last.content }) ∷ []),
      ap (λ (t : Service). lookup addr (handle_all ds t).buffers) step ∙ up.1,
    )
