-- ===== src/Net/Tests.antt =====
-- Small networks, and the theorems at them.
use sntools.Base.{◌≡◌, ◌⊎◌, refl, none, some, [], ◌∷◌, if◌then◌else◌, pos, codes, str_eq}
use sntools.Net.{
  ip4, ip6, Resolver, Kernel, opened, connected, failure, resolve, resolve_loop, open_socket,
  accept_loop,
}
use sntools.Net.Sockets.{left_open, IsConnected, open_socket_lem}
use sntools.Net.Serving.{connections, serve_all, opened_and_closed, accept_loop-serve_all}

abbrev dual_stack : Resolver
dual_stack = record {
  getaddrinfo = λ name. (pos 0, ip4 (codes "10.0.0.9") ∷ ip6 (codes "fd00::9") ∷ []);
  inet_pton = λ text. if str_eq text (codes "10.0.0.9") then some 9 else none;
  getnameinfo = λ address size. none;
}

abbrev ip4_only : Resolver
ip4_only = record dual_stack { getaddrinfo = λ name. (pos 0, ip4 (codes "10.0.0.9") ∷ []) }

abbrev kernel : Kernel
kernel = record {
  socket = pos 4;
  connect = λ address port. pos 0;
  inet_addr = λ text. 0;
  bind = λ address port. pos 0;
  listen = failure;
}

open_socket_runs :
    open_socket ip4_only kernel [] (codes "mail") (pos 25)
    ≡ (pos 4, opened (pos 4) ∷ connected (pos 4) 9 (pos 25) ∷ [])
unfolding open_socket resolve resolve_loop str_eq
open_socket_runs = refl

open_socket_lem_example :
    (((open_socket ip4_only kernel [] (codes "mail") (pos 25)).0 ≡ failure)
      × (left_open 0 (open_socket ip4_only kernel [] (codes "mail") (pos 25)).1 ≡ 0))
    ⊎ (((open_socket ip4_only kernel [] (codes "mail") (pos 25)).0 ≡ pos 4)
        × IsConnected ip4_only kernel
            (resolve ip4_only (codes "mail") []).1
            (pos 25)
            (open_socket ip4_only kernel [] (codes "mail") (pos 25)).1)
open_socket_lem_example = open_socket_lem ip4_only kernel [] (codes "mail") (pos 25)

accept_loop-serve_all_example :
    accept_loop (λ client served. client ∷ served) (pos 5 ∷ failure ∷ pos 6 ∷ []) ([], []) ≡ (
      serve_all (λ client served. client ∷ served) (connections (pos 5 ∷ failure ∷ pos 6 ∷ [])) [],
      opened_and_closed (connections (pos 5 ∷ failure ∷ pos 6 ∷ [])),
    )
accept_loop-serve_all_example =
    accept_loop-serve_all (λ client served. client ∷ served) (pos 5 ∷ failure ∷ pos 6 ∷ []) [] []
