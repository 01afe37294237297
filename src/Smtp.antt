-- ===== src/Smtp.antt =====
-- services/smtp: a session. conn.go has the states, message.go and server.go what becomes of a message.
-- What net/mail and crypto make of their input, and the result of a TLS handshake, are arguments.
pub mod Session
pub mod Diagram
pub mod Lines
pub mod Moves
pub mod Fine
pub mod Faults
pub mod Delivery
pub mod Chunks
mod Examples
use honeytrap.Base.{
  ℕ, zero, suc, ◌+◌, ◌-◌, ◌≡◌, Bool, true, false, ◌&&◌, ◌||◌, not, List, [], ◌∷◌, ◌++◌, length,
  take, drop, ltb, leb, ◌==◌, if◌then◌else◌, Option, none, some,
}
use honeytrap.Base.Text.{
  Text, codes, to_upper, is_empty, text_eq, trim, split, split_once, parse_int, int_bound,
}
use honeytrap.Base.Lines.{read_line, read_dot, begin_line, has_prefix}

pub record Message (A H : Type 0) : Type 0 where
  pub from : Option A
  pub to : List (Option A)
  pub domain : Text
  pub header : Option H
  pub buffer : Text
  pub body : Text

-- What `errorState` is given.
pub data Fault : Type 0 where
  no_domain no_hello too_many bad_count short_copy bad_chunks open_block bad_message : Fault

-- What the server has and what stands outside: addresses and messages of net/mail, the SHA-1 of a text in
-- hexadecimal digits, and the texts of errors.
pub record Env (A H : Type 0) : Type 0 where
  pub banner : Text
  pub has_tls : Bool
  pub parse_address : Text → Option A
  pub read_message : Text → Option (H × Text)
  pub hash : Text → Text
  pub error_text : Fault → Text

-- A connection: what is left to read, what each further TLS handshake gives to read (`none` where it
-- fails), and what was written, sent to the log channel and handed to the handlers, in order.
pub record Conn (A H : Type 0) : Type 0 where
  pub input : Text
  pub handshakes : List (Option Text)
  pub domain : Text
  pub msg : Message A H
  pub i : ℕ
  pub written : List Text
  pub rcv : List Text
  pub served : List (Message A H)

-- The state functions; a nil state is the end of the session.
pub data State : Type 0 where
  start_state hello_state loop_state mail_from_state unrecognized_state : State
  error_state : Fault → State

abbrev pub loop_treshold : ℕ
loop_treshold = 100

abbrev pub is_command : Text → Text → Bool
is_command line cmd = has_prefix (to_upper line) cmd

-- `parseHelloArgument`: without a blank the whole line.
abbrev hello_part : Text → Text × Option Text → Text
hello_part arg (first, none) = arg
hello_part arg (first, some rest) = rest

unfoldable pub parse_hello_argument : Text → Option Text
unfolding split_once
parse_hello_argument arg =
    let domain = hello_part arg (split_once 32 arg) in if is_empty domain then none else some domain

-- `line[n:]` of a line with fewer than n bytes panics.
abbrev pub slice : ℕ → Text → Option Text
slice n line = if leb n (length line) then some (drop n line) else none

-- `strconv.ParseInt(s, 10, 32)`, of which `CopyN` takes nothing for a negative number.
unfoldable pub parse_count : Text → Option ℕ
unfolding parse_int
parse_count s =
    let (v, fine) = parse_int s in
    if fine && ltb v 2147483648
    then some v
    else if fine && leb (int_bound - 2147483648) v
    then some 0
    else none

abbrev pub is_last : List Text → Bool
is_last (a ∷ b ∷ c ∷ []) = text_eq c (codes "LAST")
is_last _ = false

module _ {A H : Type 0} where
  unfoldable pub print_line : Text → Conn A H → Conn A H
  print_line line c = record c { written = c.written ++ (line ∷ []) }

  -- `ReadLine`: also a line that could not be read is sent to the log channel, as an empty one.
  abbrev pub got : Option (Text × Text) → Conn A H → Option Text × Conn A H
  got none c = (none, record c { rcv = c.rcv ++ ([] ∷ []) })
  got (some (line, rest)) c = (some line, record c { input = rest; rcv = c.rcv ++ (line ∷ []) })

  unfoldable pub read_text : Conn A H → Option Text × Conn A H
  unfolding read_line
  read_text c = got (read_line c.input) c

  unfoldable pub new_message : Conn A H → Message A H
  new_message c = record {
    from = none;
    to = [];
    domain = c.domain;
    header = none;
    buffer = [];
    body = [];
  }

  unfoldable pub reset : Conn A H → Conn A H
  unfolding new_message
  reset c = record c { msg = new_message c }
