-- ===== src/Ftp/Status.antt =====
-- services/ftp/status.go: the text of a reply that is sent without one.
use honeytrap.Base.{ℕ, List, [], ◌∷◌, ◌==◌, if◌then◌else◌}
use honeytrap.Base.Text.{Text, codes}

-- `statusText`.
abbrev pub status_texts : List (ℕ × Text)
status_texts =
    (200, codes "OK.")
    ∷ (202, codes "Command not implemented, obsolete.")
    ∷ (211, codes "System status, or system help reply.")
    ∷ (212, codes "Directory status.")
    ∷ (213, codes "File status.")
    ∷ (214, codes "Help message.")
    ∷ (215, codes "")
    ∷ (220, codes "Service ready for new user.")
    ∷ (221, codes "Service closing control connection.")
    ∷ (225, codes "Data connection open; no transfer in progress.")
    ∷ (226, codes "Closing data connection. Requested file action successful.")
    ∷ (227, codes "Entering Passive Mode.")
    ∷ (228, codes "Entering Long Passive Mode.")
    ∷ (229, codes "Entering Extended Passive Mode.")
    ∷ (230, codes "User logged in, proceed.")
    ∷ (231, codes "User logged out; service terminated.")
    ∷ (232, codes "Logout command noted, will complete when transfer done.")
    ∷ (250, codes "Requested file action okay, completed.")
    ∷ (257, codes "Path created.")
    ∷ (331, codes "User name OK, need password.")
    ∷ (332, codes "Need account for login.")
    ∷ (350, codes "Requested file action pending further information.")
    ∷ (421, codes "Service not available, closing control connection.")
    ∷ (425, codes "Can't open data connection.")
    ∷ (426, codes "Connection closed; transfer aborted.")
    ∷ (430, codes "Invalid username or password.")
    ∷ (434, codes "Requested host unavailable.")
    ∷ (450, codes "Requested file action not taken.")
    ∷ (451, codes "Requested action aborted. Local error in processing.")
    ∷ (452, codes "Insufficient storage space in system.")
    ∷ (500, codes "Command not found.")
    ∷ (501, codes "Syntax error in parameters or arguments.")
    ∷ (502, codes "Command not implemented.")
    ∷ (503, codes "Bad sequence of commands.")
    ∷ (504, codes "Command not implemented for that parameter.")
    ∷ (530, codes "Not logged in.")
    ∷ (532, codes "Need account for storing files.")
    ∷ (550, codes "File unavailable.")
    ∷ (551, codes "Page type unknown.")
    ∷ (552, codes "Exceeded storage allocation.")
    ∷ (553, codes "File name not allowed.")
    ∷ []

unfoldable pub text_of : ℕ → List (ℕ × Text) → Text
text_of code [] = []
text_of code ((c, t) ∷ more) = let rest = text_of code more in if c == code then t else rest
