-- ===== src/Server/Listen.antt =====
-- Server.cpp: the constructor with its control manager, its signals and its sockets, `accept` and the destructor. What the
-- system answers is an argument.
pub mod Laws
pub mod Members
use vncmanager.Base.{
  ℕ, Bool, true, false, not, Option, none, some, List, [], ◌∷◌, ◌++◌, ◌==◌, if◌then◌else◌, Result,
  Action, ok, err, errno, no_address, check, modify, ◌>>=◌, ◌>>◌,
}
use vncmanager.Sessions.Start.{Host, open_fd, close_fd}
use vncmanager.Controller
use vncmanager.Controller.Manager.{ControllerManager, ControllerAnswers}

pub data Family : Type 0 where
  inet inet6 other_family : Family

-- An address of `getaddrinfo`, with what `socket`, `setsockopt`, `bind` and `listen` answer for it.
pub record AddressInfo : Type 0 where
  pub family : Family
  pub socket : Option ℕ
  pub setsockopt : Bool
  pub bind : Bool
  pub listen : Bool

-- A socket as the kernel knows it.
pub record Socket : Type 0 where
  pub fd : ℕ
  pub family : Family
  pub v6only : Bool
  pub bound : Bool
  pub listening : Bool

-- The server's TCP sockets that are open, the newest first, with `m_listenfds` and `m_sigfd`; the
-- descriptors of the tunnels that were started; and `m_controlManager`. The host's
-- descriptors are the others: the control manager's socket and `m_sigfd` among them.
pub record Listener : Type 0 where
  pub sockets : List Socket
  pub listenfds : List ℕ
  pub sigfd : Option ℕ
  pub tunnels : List ℕ
  pub control : Option ControllerManager
  pub host : Host

abbrev pub no_sockets : Host → Listener
no_sockets host = record {
  sockets = [];
  listenfds = [];
  sigfd = none;
  tunnels = [];
  control = none;
  host = host;
}

-- A system call on the socket of a descriptor.
abbrev pub update_socket : ℕ → (Socket → Socket) → List Socket → List Socket
update_socket fd f [] = []
update_socket fd f (k ∷ ks) = if k.fd == fd then f k ∷ ks else k ∷ update_socket fd f ks

abbrev pub close_socket : ℕ → List Socket → List Socket
close_socket fd [] = []
close_socket fd (k ∷ ks) = if k.fd == fd then ks else k ∷ close_socket fd ks

abbrev pub new_socket : ℕ → Family → Socket
new_socket fd family = record {
  fd = fd;
  family = family;
  v6only = false;
  bound = false;
  listening = false;
}

-- Without IPV6_V6ONLY the loop goes on all the same.
abbrev pub set_v6only : Family → Bool → ℕ → List Socket → List Socket
set_v6only inet6 true fd ks = update_socket fd (λ k. record k { v6only = true }) ks
set_v6only inet6 false fd ks = ks
set_v6only inet setsockopt fd ks = ks
set_v6only other_family setsockopt fd ks = ks

-- The loop's body for an address whose socket was made.
unfoldable pub listen_on : AddressInfo → ℕ → Listener → Listener
listen_on a fd s =
    let made = set_v6only a.family a.setsockopt fd (new_socket fd a.family ∷ s.sockets) in
    let bound = update_socket fd (λ k. record k { bound = true }) made in
    let listening = update_socket fd (λ k. record k { listening = true }) bound in
    if not a.bind
    then record s { sockets = close_socket fd made }
    else if not a.listen
    then record s { sockets = close_socket fd bound }
    else record s { sockets = listening; listenfds = s.listenfds ++ (fd ∷ []) }

-- `listen(addrinfo *)`
unfoldable pub listen_results : List AddressInfo → Listener → Listener
unfolding listen_on
listen_results [] s = s
listen_results (a ∷ rest) s = elim a.socket [
  | none ↦ listen_results rest s
  | some fd ↦ listen_results rest (listen_on a fd s)
]

-- `getaddrinfo` for an address, null when it is empty, and a port; `none` is an error.
abbrev pub GetAddressInfo : Type 0
GetAddressInfo = Option (List ℕ) → List ℕ → Option (List AddressInfo)

abbrev pub node : List ℕ → Option (List ℕ)
node [] = none
node (c ∷ cs) = some (c ∷ cs)

abbrev pub listen_addresses : GetAddressInfo → List (List ℕ) → List ℕ → Listener → Listener
listen_addresses getaddrinfo [] port s = s
listen_addresses getaddrinfo (address ∷ rest) port s = elim (getaddrinfo (node address) port) [
  | none ↦ listen_addresses getaddrinfo rest port s
  | some results ↦ listen_addresses getaddrinfo rest port (listen_results results s)
]

abbrev pub is_empty : List ℕ → Bool
is_empty [] = true
is_empty (k ∷ ks) = false

-- `listen(addresses, port)`
unfoldable pub listen : GetAddressInfo → List (List ℕ) → List ℕ → Action Listener (Unit {0})
unfolding listen_results
listen getaddrinfo addresses port = do
  modify (listen_addresses getaddrinfo addresses port)
  (λ s. check (not (is_empty s.listenfds)) no_address s)

-- `prepareSignals`: whether the signals could be blocked, and the descriptor for them.
unfoldable pub prepare_signals : Bool → Option ℕ → Action Listener (Unit {0})
prepare_signals false fd s = err errno s
prepare_signals true none s = err errno s
prepare_signals true (some fd) s = ok tt (record s { sigfd = some fd; host = open_fd fd s.host })

abbrev pub close_control : Option ControllerManager → Host → Host
close_control none h = h
close_control (some m) h = close_fd m.fd h

-- The members' destructors: that of the control manager closes its socket.
abbrev pub destroy_members : Listener → Listener
destroy_members s = record s { control = none; host = close_control s.control s.host }

-- The constructor's body, with the options `listen`, which may be missing, and `port`.
unfoldable pub construct_body :
    GetAddressInfo → Bool → Option ℕ → Option (List (List ℕ)) → List ℕ → Action Listener (Unit {0})
unfolding listen prepare_signals
construct_body getaddrinfo blocked sigfd addresses port = do
  prepare_signals blocked sigfd
  listen getaddrinfo (elim addresses [ none ↦ [] ∷ [] | some l ↦ l ]) port

-- The control manager is constructed first; when the body throws, the members are destroyed.
unfoldable pub construct :
    ControllerAnswers
    → List ℕ
    → GetAddressInfo
    → Bool
    → Option ℕ
    → Option (List (List ℕ))
    → List ℕ
    → Action Listener (Unit {0})
unfolding Controller.Manager.construct construct_body
construct answers rundir getaddrinfo blocked sigfd addresses port s =
    elim (Controller.Manager.construct answers rundir s.host) [
      | err e h ↦ err e (record s { host = h })
      | ok m h ↦
          elim (construct_body getaddrinfo blocked sigfd addresses port
            (record s { control = some m; host = h })) [
              | ok u t ↦ ok u t
              | err e t ↦ err e (destroy_members t)
            ]
    ]

-- `accept`: the descriptor of the new client, if there is one, goes to a tunnel of its own.
unfoldable pub accept : Option ℕ → Action Listener (Unit {0})
accept none s = err errno s
accept (some fd) s = ok tt (record s { tunnels = fd ∷ s.tunnels })

abbrev pub close_all : List ℕ → List Socket → List Socket
close_all [] ks = ks
close_all (fd ∷ fds) ks = close_all fds (close_socket fd ks)

unfoldable pub destroy : Listener → Listener
destroy s = destroy_members (record s { sockets = close_all s.listenfds s.sockets })
