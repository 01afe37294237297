-- ===== src/Tftp/Examples.antt =====
-- The theorems on TFTP, at two clients and an upload of one block and three bytes.
use honeytrap.Base.{
  ℕ, ◌≡◌, refl, arith, [], ◌∷◌, ◌++◌, map, none, replicate, length-replicate, ap, get_or,
}
use honeytrap.Base.Text.{Text, codes}
use honeytrap.Tftp.{File, tftp_write, tftp_write_file, Service, lookup, handle, handle_all}
use honeytrap.Tftp.Clients.{handle-Spares}
use honeytrap.Tftp.Uploads.{Block, data_of, contents, write_request, handle_all_upload}

abbrev client : Text
client = codes "10.0.0.1:9"

abbrev other_client : Text
other_client = codes "10.0.0.2:9"

abbrev open_file : File
open_file = record { filename = codes "b"; mode = codes "o"; content = 7 ∷ [] }

abbrev service : Service
service = record { buffers = (other_client, open_file) ∷ []; written = []; sent = []; errors = 0 }

handle-Spares_example :
    lookup other_client (handle (write_request client (codes "a") (codes "octet")) service).buffers
    ≡ lookup other_client service.buffers
handle-Spares_example =
    handle-Spares (write_request client (codes "a") (codes "octet")) service other_client
      (λ e. absurd (omega (arith, ap (λ (t : Text). get_or t 7 0) e)))

abbrev first : Block
first = record { hi = 0; lo = 1; content = replicate 512 65 }

abbrev last : Block
last = record { hi = 0; lo = 2; content = 66 ∷ 67 ∷ 68 ∷ [] }

handle_all_upload_example :
    ((handle_all
        (write_request client (codes "a") (codes "octet")
          ∷ (map (data_of client) (first ∷ []) ++ (data_of client last ∷ [])))
        service).sent
      ≡ service.sent
        ++ (tftp_write (codes "a" ++ (0 ∷ [])) (codes "octet" ++ (0 ∷ []))
            ∷ (tftp_write_file (record {
              filename = codes "a" ++ (0 ∷ []);
              mode = codes "octet" ++ (0 ∷ []);
              content = contents (first ∷ []) ++ last.content;
            })
                ∷ [])))
    × (lookup client
          (handle_all
            (write_request client (codes "a") (codes "octet")
              ∷ (map (data_of client) (first ∷ []) ++ (data_of client last ∷ [])))
            service).buffers
        ≡ none)
handle_all_upload_example =
    handle_all_upload client (codes "a") (codes "octet") (first ∷ []) last service (refl, tt)
      (refl, (refl, (refl, (refl, (refl, tt))))) (length-replicate {A = ℕ} 512 65, tt) (omega arith)
