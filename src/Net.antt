-- ===== src/Net.antt =====
-- src/lib/net_util.c and src/lib/net_srv_util.c. The resolver and the kernel are interfaces: what
-- their calls return. A function's result stands with the calls that it has made on sockets, in order.
pub mod Sockets
pub mod Serving
mod Tests
use sntools.Base.{
  ℕ, Bool, true, false, Option, none, some, List, [], ◌∷◌, ◌++◌, if◌then◌else◌, ◌==◌, length, take,
  ℤ, pos, negsuc, ltb_ℤ, Bytes,
}

-- -1
abbrev pub failure : ℤ
failure = negsuc 0

-- `inet_ntop` writes the text of an address of the first two families; for others it fails.
pub data Address : Type 0 where
  ip4 ip6 : Bytes → Address
  other : Address

-- `getaddrinfo` returns 0 and the addresses, or an error. `getnameinfo` returns 0 and a name of at
-- most the size, or an error.
pub record Resolver : Type 0 where
  pub getaddrinfo : Bytes → ℤ × List Address
  pub inet_pton : Bytes → Option ℕ
  pub getnameinfo : (address size : ℕ) → Option Bytes

abbrev pub is_zero : ℤ → Bool
is_zero (pos n) = n == 0
is_zero (negsuc n) = false

-- The loop of `resolve`: each address overwrites the one before it.
unfoldable pub resolve_loop : List Address → (name : Bytes) → Bytes
resolve_loop [] name = name
resolve_loop (ip4 text ∷ rest) name = resolve_loop rest text
resolve_loop (ip6 text ∷ rest) name = resolve_loop rest text
resolve_loop (other ∷ rest) name = resolve_loop rest name

-- `resolve`: its result, and what `resolvedName` holds, given what it held before.
unfoldable pub resolve : Resolver → Bytes → (buffer : Bytes) → ℤ × Bytes
resolve r server_name buffer =
    let (status, info) = r.getaddrinfo server_name in
    if is_zero status then (pos 0, resolve_loop info buffer) else (status, buffer)

-- `resolve_ip`: likewise.
unfoldable pub resolve_ip : Resolver → Bytes → (size : ℕ) → (buffer : Bytes) → ℤ × Bytes
resolve_ip r ip size buffer = elim (r.inet_pton ip) [
  | none ↦ (pos 1, buffer)
  | some address ↦ elim (r.getnameinfo address size) [
    | none ↦ (pos 1, buffer)
    | some name ↦ (pos 0, name)
  ]
]

-- A call that changes a socket.
pub data Call : Type 0 where
  opened closed bound listening : ℤ → Call
  connected : ℤ → (address : ℕ) → (port : ℤ) → Call

-- What the calls of one function return: `socket`, `connect`, and for a server `inet_addr`, `bind` and
-- `listen`.
pub record Kernel : Type 0 where
  pub socket : ℤ
  pub connect : (address : ℕ) → (port : ℤ) → ℤ
  pub inet_addr : Bytes → ℕ
  pub bind : (address : ℕ) → (port : ℤ) → ℤ
  pub listen : ℤ

abbrev pub starts_nul : Bytes → Bool
starts_nul [] = true
starts_nul (_ ∷ _) = false

abbrev pub is_negative : ℤ → Bool
is_negative z = ltb_ℤ z (pos 0)

-- `open_socket`; `stack` is what the uninitialised `ip[255]` holds. That `resolve` has failed is not
-- looked at.
unfoldable pub open_socket :
    Resolver → Kernel → (stack : Bytes) → Bytes → (port : ℤ) → ℤ × List Call
open_socket r k stack server_name port =
    let ip = (resolve r server_name stack).1 in
    if starts_nul ip
    then (failure, [])
    else if is_negative k.socket
    then (failure, [])
    else elim (r.inet_pton ip) [
      | none ↦ (failure, opened k.socket ∷ closed k.socket ∷ [])
      | some address ↦
          if is_negative (k.connect address port)
          then (failure, opened k.socket ∷ closed k.socket ∷ [])
          else (k.socket, opened k.socket ∷ connected k.socket address port ∷ [])
    ]

abbrev pub created : ℤ → List Call
created s = if is_negative s then [] else opened s ∷ []

-- `create_server_socket`; what `socket` returns is not looked at.
unfoldable pub create_server_socket : Kernel → Bytes → (port : ℤ) → ℤ × List Call
create_server_socket k ip port =
    let address = k.inet_addr ip in
    if (if is_zero (k.bind address port) then false else true)
    then (failure, created k.socket)
    else if (if is_zero k.listen then false else true)
    then (failure, created k.socket ++ bound k.socket ∷ [])
    else (k.socket, created k.socket ++ bound k.socket ∷ listening k.socket ∷ [])

-- What `send` does: it fails, or takes that many bytes of the text.
pub data Sent : Type 0 where
  refused : Sent
  accepted : ℕ → Sent

-- What `read` returns: bytes, 0 at the end, or an error.
pub data Received : Type 0 where
  bytes : Bytes → Received
  error : Received

-- A connection: what the coming calls of `read` and of `send` return (0 and everything, once the
-- lists have ended), and the bytes sent.
pub record Client : Type 0 where
  pub reads : List Received
  pub sends : List Sent
  pub sent : Bytes

abbrev pub sending : Sent → List Sent → Bytes → Client → ℤ × Client
sending refused later line c = (failure, record c { sends = later })
sending (accepted n) later line c =
    (pos 0, record c { sends = later; sent = c.sent ++ take n line })

abbrev pub next_send : List Sent → Bytes → Client → ℤ × Client
next_send [] line c = (pos 0, record c { sent = c.sent ++ line })
next_send (s ∷ later) line c = sending s later line c

-- `writes`
unfoldable pub writes : Bytes → Client → ℤ × Client
writes line c = next_send c.sends line c

-- `accept_loop` over what the coming calls of `accept` return; the state is what the handler changes.
unfoldable pub accept_loop :
    {S : Type 0} → (handle_request_function : ℤ → S → S) → List ℤ → S × List Call → S × List Call
accept_loop handle [] s = s
accept_loop handle (client ∷ later) (state, calls) = accept_loop handle later (
    if ltb_ℤ failure client
    then (handle client state, calls ++ opened client ∷ closed client ∷ [])
    else (state, calls))
