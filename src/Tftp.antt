-- ===== src/Tftp.antt =====
-- services/tftp.go: the TFTP service. A datagram is read through bufio from listener.DummyUDPConn
-- (listener/udp_conn.go), whose Read gives what is left and no error: behind the last byte a Read gives
-- no bytes, and ReadString fails. A datagram is at most as long as the buffer of bufio. The limiter's
-- answer is part of a datagram, the files are a list by address, and what is sent is kept in order.
pub mod Files
pub mod Clients
pub mod Uploads
mod Examples
use honeytrap.Base.{
  ℕ, ◌+◌, ◌≡◌, refl, Bool, true, false, ◌&&◌, not, List, [], ◌∷◌, ◌++◌, length, take, drop, get_or,
  ◌==◌, if◌then◌else◌, Option, none, some,
}
use honeytrap.Base.Text.{Text, text_eq}

pub record File : Type 0 where
  pub filename : Text
  pub mode : Text
  pub content : List ℕ

pub data Event : Type 0 where
  tftp_read tftp_write : Text → Text → Event
  tftp_write_file : File → Event

pub record Service : Type 0 where
  pub buffers : List (Text × File)
  pub written : List (Text × List ℕ)
  pub sent : List Event
  pub errors : ℕ

pub record Datagram : Type 0 where
  pub addr : Text
  pub is_udp : Bool
  pub allowed : Bool
  pub bytes : List ℕ

-- The map of the files.
unfoldable pub lookup : Text → List (Text × File) → Option File
lookup addr [] = none
lookup addr ((a, f) ∷ files) =
    let rest = lookup addr files in if text_eq a addr then some f else rest

unfoldable pub delete : Text → List (Text × File) → List (Text × File)
delete addr [] = []
delete addr ((a, f) ∷ files) =
    let rest = delete addr files in if text_eq a addr then rest else (a, f) ∷ rest

abbrev pub put : Text → File → List (Text × File) → List (Text × File)
put addr f files = (addr, f) ∷ delete addr files

-- `ReadString(0)`: the zero belongs to the result.
unfoldable pub read_string : List ℕ → Option (Text × List ℕ)
read_string [] = none
read_string (c ∷ cs) =
    let rest = read_string cs in
    if c == 0 then some (c ∷ [], cs) else elim rest [ none ↦ none | some (s, r) ↦ some (c ∷ s, r) ]

abbrev pub reply : Text → List ℕ → Service → Service
reply addr message s = record s { written = s.written ++ ((addr, message) ∷ []) }

abbrev pub send : Event → Service → Service
send e s = record s { sent = s.sent ++ (e ∷ []) }

abbrev pub fail : Service → Service
fail s = record s { errors = s.errors + 1 }

-- A file name and a mode, and what is done with them.
abbrev pub with_mode :
    (Text → Text → Service → Service) → Text → Option (Text × List ℕ) → Service → Service
with_mode use_names filename none s = fail s
with_mode use_names filename (some (mode, r)) s = use_names filename mode s

abbrev pub with_filename :
    (Text → Text → Service → Service) → Option (Text × List ℕ) → Service → Service
unfolding read_string
with_filename use_names none s = fail s
with_filename use_names (some (filename, r)) s = with_mode use_names filename (read_string r) s

unfoldable pub with_names : List ℕ → (Text → Text → Service → Service) → Service → Service
unfolding with_filename
with_names bytes use_names s = with_filename use_names (read_string bytes) s

-- "File not found".
abbrev pub on_read : Text → Text → Text → Service → Service
on_read addr filename mode s =
    reply addr (0 ∷ 5 ∷ 0 ∷ 1 ∷ 0 ∷ []) (send (tftp_read filename mode) s)

abbrev pub on_write : Text → Text → Text → Service → Service
unfolding delete
on_write addr filename mode s =
    let t = reply addr (0 ∷ 4 ∷ 0 ∷ 0 ∷ []) (send (tftp_write filename mode) s) in
    record t {
      buffers = put addr (record { filename = filename; mode = mode; content = [] }) t.buffers;
    }

-- A block for a file: a block of fewer than 512 bytes ends it.
abbrev pub on_block : Text → ℕ → ℕ → List ℕ → File → Service → Service
unfolding delete
on_block addr hi lo block file s =
    let f = record file { content = file.content ++ block } in
    let t = reply addr (0 ∷ 4 ∷ hi ∷ lo ∷ []) (record s { buffers = put addr f s.buffers }) in
    if not (length block == 512)
    then send (tftp_write_file f) (record t { buffers = delete addr t.buffers })
    else t

abbrev pub on_file : Text → List ℕ → Option File → Service → Service
unfolding on_block
on_file addr bytes none s = reply addr (0 ∷ 5 ∷ 0 ∷ 4 ∷ 0 ∷ []) s
on_file addr bytes (some file) s =
    on_block addr (get_or bytes 0 0) (get_or bytes 1 0) (take 512 (drop 2 bytes)) file s

unfoldable pub on_data : Text → List ℕ → Service → Service
unfolding lookup on_file
on_data addr bytes s = on_file addr bytes (lookup addr s.buffers) s

-- The switch over the type; an acknowledgment, an error and any other type are only logged.
unfoldable pub on_packet : Text → ℕ → List ℕ → Service → Service
unfolding with_names on_write on_data
on_packet addr type bytes s =
    if type == 1
    then with_names bytes (on_read addr) s
    else if type == 2
    then with_names bytes (on_write addr) s
    else if type == 3
    then on_data addr bytes s
    else s

-- `Handle`.
unfoldable pub handle : Datagram → Service → Service
unfolding on_packet
handle d s =
    if d.is_udp && not d.allowed
    then s
    else on_packet d.addr (get_or d.bytes 1 0) (drop 2 d.bytes) s

unfoldable pub handle_all : List Datagram → Service → Service
unfolding handle
handle_all [] s = s
handle_all (d ∷ ds) s = handle_all ds (handle d s)
