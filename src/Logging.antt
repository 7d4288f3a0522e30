-- ===== src/Logging.antt =====
-- The log sender of internal/pkg/machine/logging/sender.go. Package net is a dependency: a socket
-- is what a dial gave, and `Net` tells which calls on sockets succeed. The calls made are recorded,
-- newest first. JSON encoding is a dependency too, and its result is an argument.
pub mod Binding
use talemu.Prelude.{
  ℕ, suc, Text, codes, text_eq, Bool, true, false, not, ◌&&◌, ◌||◌, List, [], ◌∷◌, ◌++◌, Option,
  none, some, is_some, if◌then◌else◌,
}

-- A connection, with the interface and the address that the dialer bound it to.
pub record Socket : Type 0 where
  pub number : ℕ
  pub iface : Text
  pub addr : Text

pub data Call : Type 0 where
  dialed : Socket → Call
  refused : Call
  written : Socket → Text → Call
  closed : Socket → Call

-- Whether a dial, or a write of some bytes, succeeds after the calls made so far.
pub record Net : Type 0 where
  pub accepts : List Call → Text → Text → Bool
  pub takes : List Call → Socket → Text → Bool

-- LogSender, with the calls that it made. The mutex guards `iface` and `local_addr`; the semaphore
-- makes one Send or Close run at a time. A Send reads the two once, at its start, and is one step.
pub record LogSender : Type 0 where
  pub scheme : Text
  pub conn : Option Socket
  pub local_addr : Text
  pub conn_addr : Text
  pub iface : Text
  pub conn_iface : Text
  pub calls : List Call
  pub dials : ℕ

-- NewLogSender
unfoldable pub new_log_sender : Text → LogSender
new_log_sender scheme = record {
  scheme = scheme;
  conn = none;
  local_addr = [];
  conn_addr = [];
  iface = [];
  conn_iface = [];
  calls = [];
  dials = 0;
}

-- ready
unfoldable pub ready : LogSender → Bool
ready j = not (text_eq j.iface [])

-- configure
unfoldable pub configure : Text → Text → LogSender → LogSender
configure iface addr j = record j { iface = iface; local_addr = addr }

pub data Sent : Type 0 where
  sent not_ready unencodable cancelled undialed unwritten : Sent

-- The bytes of a message: over TCP a newline ends it.
unfoldable pub frame : Text → Text → Text
frame scheme b = if text_eq scheme (codes "tcp") then b ++ 10 ∷ [] else b

-- A connection that is bound to a stale address or interface is dropped.
unfoldable pub drop_stale : LogSender → LogSender
drop_stale j = elim j.conn [
  | none ↦ j
  | some c ↦
      if not (text_eq j.conn_addr j.local_addr) || not (text_eq j.conn_iface j.iface)
      then record j { conn = none; calls = closed c ∷ j.calls }
      else j
]

-- if j.conn == nil { DialContext … }: the connection to write on.
unfoldable pub connect : Net → LogSender → Option Socket × LogSender
connect net j = elim j.conn [
  | some c ↦ (some c, j)
  | none ↦
      let c : Socket = record { number = j.dials; iface = j.iface; addr = j.local_addr } in
      if net.accepts j.calls j.iface j.local_addr
      then (
        some c,
        record j {
          conn = some c;
          conn_addr = j.local_addr;
          conn_iface = j.iface;
          calls = dialed c ∷ j.calls;
          dials = suc j.dials;
        },
      )
      else (none, record j { calls = refused ∷ j.calls })
]

-- Write, and close the connection on an error.
unfoldable pub write : Net → Socket → Text → LogSender → Sent × LogSender
write net c b j =
    if net.takes j.calls c b
    then (sent, record j { calls = written c b ∷ j.calls })
    else (unwritten, record j { conn = none; calls = closed c ∷ j.calls })

-- Send, given the encoded event and whether the semaphore is taken before the context ends.
unfoldable pub send : Net → Option Text → Bool → LogSender → Sent × LogSender
send net encoded locked j = if text_eq j.iface [] then (not_ready, j) else elim encoded [
  | none ↦ (unencodable, j)
  | some b ↦
      if not locked
      then (cancelled, j)
      else (let (got, j') = connect net (drop_stale j) in
          elim got [ none ↦ (undialed, j') | some c ↦ write net c (frame j.scheme b) j' ])
]

-- Close: the connection is given up, also when the context ends before it is closed.
unfoldable pub close : Bool → LogSender → LogSender
close locked j =
    if not locked
    then j
    else elim j.conn [ none ↦ j | some c ↦ record j { conn = none; calls = closed c ∷ j.calls } ]
