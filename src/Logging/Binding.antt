-- ===== src/Logging/Binding.antt =====
-- The connections of LogSender: which are open, and where they are bound.
use talemu.Prelude.{
  ℕ, Text, text_eq, text_eq_iff, Bool, true, false, not, ◌||◌, List, [], ◌∷◌, Option, none, some,
  ◌==◌, if◌then◌else◌, ◌≡◌, refl, ◌⊎◌, inl, inr, arith, Bool-cases, Option-cases,
}
use talemu.Logging.{
  Socket, Call, dialed, refused, written, closed, Net, LogSender, configure, sent, not_ready,
  unencodable, cancelled, undialed, frame, drop_stale, connect, write, send, close,
}

unfoldable pub without : ℕ → List Socket → List Socket
without n [] = []
without n (c ∷ cs) = if c.number == n then without n cs else c ∷ without n cs

-- The connections that were dialed and not closed.
unfoldable pub open_sockets : List Call → List Socket
open_sockets [] = []
open_sockets (dialed c ∷ calls) = c ∷ open_sockets calls
open_sockets (refused ∷ calls) = open_sockets calls
open_sockets (written _ _ ∷ calls) = open_sockets calls
open_sockets (closed c ∷ calls) = without c.number (open_sockets calls)

-- The sender holds the one open connection, bound to the address and interface that it remembers,
-- or there is none.
abbrev pub IsSound : LogSender → Type 0
IsSound j =
    ((j.conn ≡ none) × (open_sockets j.calls ≡ []))
    ⊎ ((c : Socket) × (j.conn ≡ some c)
        × (open_sockets j.calls ≡ c ∷ [])
        × (c.addr ≡ j.conn_addr)
        × (c.iface ≡ j.conn_iface))

-- The connection, if there is one, is bound to the configured address and interface.
abbrev IsCurrent : LogSender → Type 0
IsCurrent j = (j.conn_addr ≡ j.local_addr) × (j.conn_iface ≡ j.iface)

without-one : (c : Socket) → without c.number (c ∷ []) ≡ []
unfolding without
without-one c = ground arith

abbrev dropped : Socket → LogSender → LogSender
dropped c j = record j { conn = none; calls = closed c ∷ j.calls }

drop_stale_cases :
    (j : LogSender)
    → IsSound j
    → ((drop_stale j ≡ j) × (j.conn ≡ none) × (open_sockets j.calls ≡ []))
      ⊎ (((c : Socket) × (drop_stale j ≡ dropped c j) × (open_sockets j.calls ≡ c ∷ []))
          ⊎ ((c : Socket) × (drop_stale j ≡ j)
              × (j.conn ≡ some c)
              × (open_sockets j.calls ≡ c ∷ [])
              × (c.addr ≡ j.local_addr)
              × (c.iface ≡ j.iface)
              × (c.addr ≡ j.conn_addr)
              × (c.iface ≡ j.conn_iface)))
unfolding drop_stale
drop_stale_cases j (inl (e, o)) = inl (ground arith, e, o)
drop_stale_cases j (inr (c, e, o, a, i)) =
    elim (Bool-cases
      (not (text_eq j.conn_addr j.local_addr) || not (text_eq j.conn_iface j.iface))) [
        | inl stale ↦ inr (inl (c, ground arith, o))
        | inr same ↦ inr (
            inr (
              c,
              ground arith,
              e,
              o,
              ground (arith, text_eq_iff j.conn_addr j.local_addr),
              ground (arith, text_eq_iff j.conn_iface j.iface),
              a,
              i,
            ))
      ]

-- What a Send has before it writes: no connection, or one that is bound as configured in `j`.
abbrev IsDialed : LogSender → Option Socket → LogSender → Type 0
IsDialed j got j' =
    ((got ≡ none) × (j'.conn ≡ none) × (open_sockets j'.calls ≡ []))
    ⊎ ((c : Socket) × (got ≡ some c)
        × (j'.conn ≡ some c)
        × (open_sockets j'.calls ≡ c ∷ [])
        × (c.addr ≡ j.local_addr)
        × (c.iface ≡ j.iface)
        × (c.addr ≡ j'.conn_addr)
        × (c.iface ≡ j'.conn_iface))

redial_lem :
    (net : Net) (j : LogSender)
    → j.conn ≡ none
    → open_sockets j.calls ≡ []
    → IsDialed j (connect net j).0 (connect net j).1
unfolding connect open_sockets
redial_lem net j e o = elim (Bool-cases (net.accepts j.calls j.iface j.local_addr)) [
  | inl y ↦ inr (
    record { number = j.dials; iface = j.iface; addr = j.local_addr },
    ground arith,
    ground arith,
    ground arith,
    refl,
    refl,
    ground arith,
    ground arith,
  )
  | inr y ↦ inl (ground arith, ground arith, ground arith)
]

connect_lem :
    (net : Net) (j : LogSender)
    → IsSound j
    → IsDialed j (connect net (drop_stale j)).0 (connect net (drop_stale j)).1
unfolding connect open_sockets
connect_lem net j sound = elim (drop_stale_cases j sound) [
  | inl (same, e, o) ↦ rw same (redial_lem net j e o)
  | inr (inl (c, new, o)) ↦ rw new (redial_lem net (dropped c j) refl (rw o (without-one c)))
  | inr (inr (c, same, e, o, a, i, a', i')) ↦
      let found : connect net j ≡ (some c, j) = ground arith in
      rw (same, found) (inr (c, refl, e, o, a, i, a', i'))
]

write_lem :
    (net : Net) (c : Socket) (b : Text) (j : LogSender)
    → j.conn ≡ some c
    → open_sockets j.calls ≡ c ∷ []
    → c.addr ≡ j.conn_addr
    → c.iface ≡ j.conn_iface
    → IsSound (write net c b j).1
      × ((write net c b j).0 ≡ sent → (write net c b j).1.calls ≡ written c b ∷ j.calls)
unfolding write open_sockets
write_lem net c b j e o a i = elim (Bool-cases (net.takes j.calls c b)) [
  | inl y ↦ (inr (c, ground arith, ground arith, ground arith, ground arith), λ _. ground arith)
  | inr y ↦ (inl (ground arith, ground (arith, without-one c)), λ h. ground arith)
]

-- The write of a successful Send: an encoded event, on a connection bound as the sender is
-- configured.
abbrev IsWritten : Option Text → LogSender → LogSender → Type 0
IsWritten encoded j j' =
    (b : Text) × (c : Socket) × (earlier : List Call) × (encoded ≡ some b)
    × (j'.calls ≡ written c (frame j.scheme b) ∷ earlier)
    × (c.addr ≡ j.local_addr)
    × (c.iface ≡ j.iface)

send_connected :
    (net : Net) (b : Text) (j j' : LogSender) (got : Option Socket)
    → text_eq j.iface [] ≡ false
    → connect net (drop_stale j) ≡ (got, j')
    → IsDialed j got j'
    → IsSound (send net (some b) true j).1
      × ((send net (some b) true j).0 ≡ sent → IsWritten (some b) j (send net (some b) true j).1)
unfolding send
send_connected net b j j' got ready found (inl (e, n, o)) =
    let run : send net (some b) true j ≡ (undialed, j') = ground arith in
    rw run (inl (n, o), λ h. cc)
send_connected net b j j' got ready found (inr (c, e, k, o, a, i, a', i')) =
    let run : send net (some b) true j ≡ write net c (frame j.scheme b) j' = ground arith in
    let (sound, wrote) = write_lem net c (frame j.scheme b) j' k o a' i' in
    rw run (sound, λ h. (b, c, j'.calls, refl, wrote h, a, i))

-- From a sender whose one open connection is bound to the address and interface that it remembers,
-- as a new one is, every Send leaves a sender of the same kind, whatever it returns: no connection
-- is left open behind it. A Send that succeeds wrote the encoded event, framed, on a connection
-- bound to the address and interface that are configured at that time.
pub send-IsSound :
    (net : Net) (encoded : Option Text) (locked : Bool) (j : LogSender)
    → IsSound j
    → IsSound (send net encoded locked j).1
      × ((send net encoded locked j).0 ≡ sent → IsWritten encoded j (send net encoded locked j).1)
send-IsSound net encoded locked j h = elim (Bool-cases (text_eq j.iface [])) [
  | inl y ↦
      (let run : send net encoded locked j ≡ (not_ready, j) = (unfold send in ground arith) in
        rw run (h, λ k. cc))
  | inr y ↦ elim (Option-cases encoded) [
    | inl n ↦
        (let run : send net encoded locked j ≡ (unencodable, j) = (unfold send in ground arith) in
          rw run (h, λ k. cc))
    | inr (b, n) ↦ elim (Bool-cases locked) [
      | inl l ↦
          rw (n, l)
            (send_connected net b j (connect net (drop_stale j)).1 (connect net (drop_stale j)).0 y
              refl (connect_lem net j h))
      | inr l ↦
          (let run : send net encoded locked j ≡ (cancelled, j) = (unfold send in ground arith) in
            rw run (h, λ k. cc))
    ]
  ]
]

-- Configuring and closing keep a sender sound too, and a Close that gets the semaphore leaves no
-- connection open.
pub close-IsSound :
    (j : LogSender) (iface addr : Text) (locked : Bool)
    → IsSound j
    → IsSound (configure iface addr j)
      × IsSound (close locked j)
      × (open_sockets (close true j).calls ≡ [])
unfolding configure close open_sockets
close-IsSound j iface addr true (inl (e, o)) =
    (inl (e, o), inl (ground arith, ground arith), ground arith)
close-IsSound j iface addr false (inl (e, o)) =
    (inl (e, o), inl (ground arith, ground arith), ground arith)
close-IsSound j iface addr true (inr (c, e, o, a, i)) = (
  inr (c, e, o, a, i),
  inl (ground arith, ground (arith, without-one c)),
  ground (arith, without-one c),
)
close-IsSound j iface addr false (inr (c, e, o, a, i)) =
    (inr (c, e, o, a, i), inr (c, e, o, a, i), ground (arith, without-one c))
