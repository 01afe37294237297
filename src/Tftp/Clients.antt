-- ===== src/Tftp/Clients.antt =====
-- services/tftp.go: clients do not touch each other's files.
use honeytrap.Base.{
  ℕ, ◌≡◌, ◌≢◌, refl, ◌∙◌, ◌&&◌, not, List, ◌++◌, length, take, drop, get_or, ◌==◌, Option, none,
  some, Bool-cases, inl, inr,
}
use honeytrap.Base.Text.{Text}
use honeytrap.Tftp.{
  with_mode, with_filename, on_file, File, Service, Datagram, lookup, put, read_string, with_names,
  on_write, on_block, on_data, on_packet, handle, on_read,
}
use honeytrap.Tftp.Files.{lookup-delete_ne, lookup-put_ne}

-- What a call does to the file of another address.
Spares : Text → Service → Service → Type 0
Spares b s t = lookup b t.buffers ≡ lookup b s.buffers

with_names-Spares :
    (b : Text) (bytes : List ℕ) (f : Text → Text → Service → Service) (s : Service)
    → ((filename mode : Text) → Spares b s (f filename mode s))
    → Spares b s (with_names bytes f s)
unfolding Spares with_names with_filename
with_names-Spares b bytes f s h = by_name (read_string bytes)
  where
    by_mode :
        (filename : Text) (r : Option (Text × List ℕ))
        → lookup b (with_mode f filename r s).buffers ≡ lookup b s.buffers
    by_mode filename none = refl
    by_mode filename (some (mode, q)) = h filename mode

    by_name :
        (r : Option (Text × List ℕ)) → lookup b (with_filename f r s).buffers ≡ lookup b s.buffers
    by_name none = refl
    by_name (some (filename, r)) = by_mode filename (read_string r)

on_block-Spares :
    (a b : Text) (hi lo : ℕ) (block : List ℕ) (file : File) (s : Service)
    → b ≢ a
    → Spares b s (on_block a hi lo block file s)
unfolding Spares on_block
on_block-Spares a b hi lo block file s h =
    let f : File = record file { content = file.content ++ block } in
    elim (Bool-cases (length block == 512)) [
      | inl full ↦ rw full (lookup-put_ne a b f s.buffers h)
      | inr short ↦
          rw short (lookup-delete_ne a b (put a f s.buffers) h ∙ lookup-put_ne a b f s.buffers h)
    ]

on_data-Spares :
    (a b : Text) (bytes : List ℕ) (s : Service) → b ≢ a → Spares b s (on_data a bytes s)
unfolding Spares on_data on_file
on_data-Spares a b bytes s h = by_file (lookup a s.buffers)
  where
    by_file : (r : Option File) → lookup b (on_file a bytes r s).buffers ≡ lookup b s.buffers
    by_file none = refl
    by_file (some file) =
        on_block-Spares a b (get_or bytes 0 0) (get_or bytes 1 0) (take 512 (drop 2 bytes)) file s h

on_packet-Spares :
    (a b : Text) (type : ℕ) (bytes : List ℕ) (s : Service)
    → b ≢ a
    → Spares b s (on_packet a type bytes s)
unfolding on_packet
on_packet-Spares a b type bytes s h = elim (Bool-cases (type == 1)) [
  | inl reads ↦ rw reads (with_names-Spares b bytes (on_read a) s (λ f m. unfold Spares in refl))
  | inr one ↦ elim (Bool-cases (type == 2)) [
    | inl writes ↦
        rw (one, writes)
          (with_names-Spares b bytes (on_write a) s
            (λ f m. unfold Spares on_write in lookup-put_ne a b _ s.buffers h))
    | inr two ↦ elim (Bool-cases (type == 3)) [
      | inl has_data ↦ rw (one, two, has_data) (on_data-Spares a b bytes s h)
      | inr other ↦ rw (one, two, other) (unfold Spares in refl)
    ]
  ]
]

-- Whatever a client sends, the file of a client at another address is as it was.
pub handle-Spares :
    (d : Datagram) (s : Service) (b : Text)
    → b ≢ d.addr
    → lookup b (handle d s).buffers ≡ lookup b s.buffers
unfolding handle Spares
handle-Spares d s b h = elim (Bool-cases (d.is_udp && not d.allowed)) [
  | inl limited ↦ rw limited refl
  | inr passed ↦ rw passed (on_packet-Spares d.addr b (get_or d.bytes 1 0) (drop 2 d.bytes) s h)
]
