-- ===== src/Net/Sockets.antt =====
-- Which sockets the helpers leave open.
use sntools.Base.{
  ℕ, ◌+◌, ◌-◌, ◌≡◌, ◌⊎◌, refl, true, false, none, some, List, [], ◌∷◌, ◌++◌, if◌then◌else◌, inl,
  inr, Bool-cases, Option-cases, ℤ, pos, Bytes,
}
use sntools.Net.{
  Address, ip4, ip6, other, Resolver, Kernel, Call, opened, closed, bound, listening, connected,
  failure, is_zero, is_negative, starts_nul, resolve_loop, resolve, open_socket, created,
  create_server_socket,
}

-- How many sockets are open after the calls.
abbrev pub left_open : ℕ → List Call → ℕ
left_open n [] = n
left_open n (opened s ∷ calls) = left_open (n + 1) calls
left_open n (closed s ∷ calls) = left_open (n - 1) calls
left_open n (bound s ∷ calls) = left_open n calls
left_open n (listening s ∷ calls) = left_open n calls
left_open n (connected s a p ∷ calls) = left_open n calls

-- A socket that is connected to the address that the name has, at the port.
pub record IsConnected (r : Resolver) (k : Kernel) (ip : Bytes) (port : ℤ) (calls : List Call)
    : Type 0 where
  pub address : ℕ
  pub named : r.inet_pton ip ≡ some address
  pub live : is_negative k.socket ≡ false
  pub answered : is_negative (k.connect address port) ≡ false
  pub made : calls ≡ opened k.socket ∷ connected k.socket address port ∷ []

module _ (r : Resolver) (k : Kernel) (stack name : Bytes) (port : ℤ) where
  -- `open_socket` returns -1 with no socket left open, or the new socket, connected at the port to the
  -- address that `resolve` has left in `ip`.
  pub open_socket_lem :
      (((open_socket r k stack name port).0 ≡ failure)
        × (left_open 0 (open_socket r k stack name port).1 ≡ 0))
      ⊎ (((open_socket r k stack name port).0 ≡ k.socket)
          × IsConnected r k (resolve r name stack).1 port (open_socket r k stack name port).1)
  unfolding open_socket
  open_socket_lem =
      let ip = (resolve r name stack).1 in
      elim (Bool-cases (starts_nul ip)) [
        | inl e ↦ rw (e, open_socket) (inl (refl, refl))
        | inr e ↦ elim (Bool-cases (is_negative k.socket)) [
          | inl f ↦ rw (e, f, open_socket) (inl (refl, refl))
          | inr f ↦ elim (Option-cases (r.inet_pton ip)) [
            | inl g ↦ rw (e, f, g, open_socket) (inl (refl, refl))
            | inr (a, g) ↦ elim (Bool-cases (is_negative (k.connect a port))) [
              | inl h ↦ rw (e, f, g, h, open_socket) (inl (refl, refl))
              | inr h ↦
                  rw (e, f, g, open_socket, h)
                    (inr (
                      refl,
                      record { address = a; named = g; live = f; answered = h; made = refl },
                    ))
            ]
          ]
        ]
      ]

resolve_loop-append :
    (first rest : List Address) (name : Bytes)
    → resolve_loop (first ++ rest) name ≡ resolve_loop rest (resolve_loop first name)
unfolding resolve_loop
resolve_loop-append [] rest name = refl
resolve_loop-append (ip4 text ∷ first) rest name = resolve_loop-append first rest text
resolve_loop-append (ip6 text ∷ first) rest name = resolve_loop-append first rest text
resolve_loop-append (other ∷ first) rest name = resolve_loop-append first rest name

-- A host whose last address is of IPv6 is never reached, whatever other addresses it has: `open_socket`
-- returns -1 (`inet_pton` for IPv4 reads no IPv6 address), and connects no socket.
open_socket_ip6 :
    (r : Resolver) (k : Kernel) (stack name : Bytes) (port : ℤ) (first : List Address)
    (text : Bytes)
    → r.getaddrinfo name ≡ (pos 0, first ++ ip6 text ∷ [])
    → r.inet_pton text ≡ none
    → ((open_socket r k stack name port).0 ≡ failure)
      × (left_open 0 (open_socket r k stack name port).1 ≡ 0)
unfolding open_socket resolve resolve_loop
open_socket_ip6 r k stack name port first text e f =
    let last : (resolve r name stack).1 ≡ text =
      rw (e, resolve) (resolve_loop-append first (ip6 text ∷ []) stack) in
    elim (open_socket_lem r k stack name port) [
      | inl done ↦ done
      | inr (_, c) ↦ cc (c.named, last, f)
    ]

-- With `bind` and `listen` successful `create_server_socket` returns the socket, bound and listening.
-- Else it returns -1, and leaves the socket that it has made open.
pub create_server_socket_lem :
    (k : Kernel) (ip : Bytes) (port : ℤ)
    → ((is_zero (k.bind (k.inet_addr ip) port) ≡ true)
        × (is_zero k.listen ≡ true)
        × (create_server_socket k ip port
            ≡ (k.socket, created k.socket ++ bound k.socket ∷ listening k.socket ∷ [])))
      ⊎ (((create_server_socket k ip port).0 ≡ failure)
          × (left_open 0 (create_server_socket k ip port).1
              ≡ (if is_negative k.socket then 0 else 1)))
unfolding create_server_socket
create_server_socket_lem k ip port = elim (Bool-cases (is_zero (k.bind (k.inet_addr ip) port))) [
  | inr e ↦ elim (Bool-cases (is_negative k.socket)) [
    | inl f ↦ rw (e, f) (inr (refl, refl))
    | inr f ↦ rw (e, f) (inr (refl, refl))
  ]
  | inl e ↦ elim (Bool-cases (is_zero k.listen)) [
    | inr g ↦ elim (Bool-cases (is_negative k.socket)) [
      | inl f ↦ rw (e, g, f) (inr (refl, refl))
      | inr f ↦ rw (e, g, f) (inr (refl, refl))
    ]
    | inl g ↦ rw (e, g) (inl (refl, refl, refl))
  ]
]
