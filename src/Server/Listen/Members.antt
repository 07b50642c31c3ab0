-- ===== src/Server/Listen/Members.antt =====
-- What the constructor of Server leaves open besides its TCP sockets, and what the destructor closes.
use vncmanager.Base.{
  length, ◌<◌, ℕ, ◌≡◌, ◌≢◌, refl, sym, ap, ◌∙◌, arith, Bool, true, false, Option, none, some, List,
  [], ◌∷◌, Result, ok, err, no_address, Post, after, ◌⊎◌, Error, Bool-cases, Option-cases, inl, inr,
  All,
}
use mathlib.Core.Path.{subst}
use vncmanager.Sessions.Start.{Host, open_fd, remove_fd, sun_path_size}
use vncmanager.Controller
use vncmanager.Controller.Manager.{ControllerManager, ControllerAnswers}
use vncmanager.Controller.Manager.Laws.{construct_lem}
use vncmanager.Server.Listen.{
  AddressInfo, Listener, no_sockets, listen_on, listen_results, GetAddressInfo, node,
  listen_addresses, is_empty, listen, prepare_signals, construct, construct_body, destroy_members,
  close_control, destroy,
}
use vncmanager.Server.Listen.Laws.{
  IsServing, IsListening, listen-IsServing, destroy-IsServing, none_open, fds,
}

-- Sockets are made without the control manager.
abbrev SameMembers : Listener → Listener → Type 0
SameMembers s t = (t.control ≡ s.control) × (t.host ≡ s.host)

listen_on_members : (a : AddressInfo) (fd : ℕ) (s : Listener) → SameMembers s (listen_on a fd s)
unfolding listen_on
listen_on_members a fd s = ground arith

results_members : (l : List AddressInfo) (s : Listener) → SameMembers s (listen_results l s)
unfolding listen_results
results_members [] s = (refl, refl)
results_members (a ∷ rest) s = elim (Option-cases a.socket) [
  | inl failed ↦ rw (failed, listen_results) (results_members rest s)
  | inr (fd, made) ↦
      let (c, h) = results_members rest (listen_on a fd s) in
      let (c', h') = listen_on_members a fd s in rw (made, listen_results) (c ∙ c', h ∙ h')
]

addresses_members :
    (getaddrinfo : GetAddressInfo) (port : List ℕ) (l : List (List ℕ)) (s : Listener)
    → SameMembers s (listen_addresses getaddrinfo l port s)
addresses_members getaddrinfo port [] s = (refl, refl)
addresses_members getaddrinfo port (address ∷ rest) s =
    elim (Option-cases (getaddrinfo (node address) port)) [
      | inl failed ↦ rw (failed, listen_addresses) (addresses_members getaddrinfo port rest s)
      | inr (results, found) ↦
          let (c, h) = addresses_members getaddrinfo port rest (listen_results results s) in
          let (c', h') = results_members results s in rw (found, listen_addresses) (c ∙ c', h ∙ h')
    ]

listen_members :
    (getaddrinfo : GetAddressInfo) (l : List (List ℕ)) (port : List ℕ) (s : Listener)
    → SameMembers s (after (listen getaddrinfo l port s))
unfolding listen
listen_members getaddrinfo l port s =
    let t = listen_addresses getaddrinfo l port s in
    elim (Bool-cases (is_empty t.listenfds)) [
      | inl empty ↦ rw empty (addresses_members getaddrinfo port l s)
      | inr some_fd ↦ rw some_fd (addresses_members getaddrinfo port l s)
    ]

-- The descriptor for the signals was opened.
abbrev pub HasSigfd : Option ℕ → ℕ → Type 0
HasSigfd sigfd fd = sigfd ≡ some fd

abbrev BodyOk : Option ℕ → Listener → Listener → Type 0
BodyOk sigfd s t =
    (fd : ℕ) × HasSigfd sigfd fd
    × IsServing t
    × (t.listenfds ≢ [])
    × (t.control ≡ s.control)
    × (t.host ≡ open_fd fd s.host)

abbrev BodyErr : Option ℕ → Listener → Error → Listener → Type 0
BodyErr sigfd s e t =
    (t.sockets ≡ [])
    × (t.control ≡ s.control)
    × ((t.host ≡ s.host)
        ⊎ ((fd : ℕ) × HasSigfd sigfd fd × (e ≡ no_address) × (t.host ≡ open_fd fd s.host)))

construct_body_lem :
    (getaddrinfo : GetAddressInfo) (blocked : Bool) (sigfd : Option ℕ)
    (addresses : Option (List (List ℕ))) (port : List ℕ) (s : Listener)
    → s.sockets ≡ []
    → s.listenfds ≡ []
    → Post
        (λ _ t. BodyOk sigfd s t)
        (λ e t. BodyErr sigfd s e t)
        (construct_body getaddrinfo blocked sigfd addresses port s)
unfolding construct_body prepare_signals
construct_body_lem getaddrinfo false sigfd addresses port s n l = (n, refl, inl refl)
construct_body_lem getaddrinfo true none addresses port s n l = (n, refl, inl refl)
construct_body_lem getaddrinfo true (some fd) addresses port s n l =
    let started : Listener = record s { sigfd = some fd; host = open_fd fd s.host } in
    let all : List (List ℕ) = elim addresses [ none ↦ [] ∷ [] | some l ↦ l ] in
    let empty : IsServing started = record {
      listed = l ∙ ap fds (sym n);
      listening = subst (All IsListening) (sym n) tt;
    } in
    go (listen getaddrinfo all port started) (listen-IsServing getaddrinfo port all started empty)
      (listen_members getaddrinfo all port started)
  where
    go :
        (r : Result Listener (Unit {0}))
        → Post
            (λ _ t. IsServing t × (t.listenfds ≢ []))
            (λ e t. (e ≡ no_address) × IsServing t × (t.listenfds ≡ []))
            r
        → SameMembers (record s { sigfd = some fd; host = open_fd fd s.host }) (after r)
        → Post (λ _ t. BodyOk (some fd) s t) (λ e t. BodyErr (some fd) s e t) r
    go (ok u t) (v, h) (c, same) = (fd, refl, v, h, c, same)
    go (err e t) (x, v, h) (c, same) =
        (none_open t.sockets (sym v.listed ∙ h), c, inr (fd, refl, x, same))

-- The control manager's socket is closed, whichever descriptor the signals have.
control_closed : (fd k : ℕ) (ks : List ℕ) → remove_fd k (fd ∷ k ∷ ks) ≡ fd ∷ ks
control_closed fd k ks = ground arith

first_closed : (k : ℕ) (ks : List ℕ) → remove_fd k (k ∷ ks) ≡ ks
first_closed k ks = ground arith

abbrev pub IsUp : Option ℕ → Host → Listener → Type 0
IsUp sigfd host t =
    (fd : ℕ) × HasSigfd sigfd fd
    × IsServing t
    × (t.listenfds ≢ [])
    × ((m : ControllerManager) × (t.control ≡ some m)
        × (t.host.descriptors ≡ fd ∷ m.fd ∷ host.descriptors))
    × ((destroy t).sockets ≡ [])
    × ((destroy t).host.descriptors ≡ fd ∷ host.descriptors)

abbrev pub IsDown : Option ℕ → Host → Error → Listener → Type 0
IsDown sigfd host e t =
    (t.sockets ≡ [])
    × ((t.host.descriptors ≡ host.descriptors)
        ⊎ ((fd : ℕ) × HasSigfd sigfd fd
            × (e ≡ no_address)
            × (t.host.descriptors ≡ fd ∷ host.descriptors)))

module _ (sigfd : Option ℕ) (host : Host) (m : ControllerManager) (h : Host)
    (opened : h.descriptors ≡ m.fd ∷ host.descriptors) where
  closes :
      (c : Option ControllerManager) (t : Host) (ks : List ℕ)
      → c ≡ some m
      → t.descriptors ≡ ks
      → (close_control c t).descriptors ≡ remove_fd m.fd ks
  closes c t ks e d = rw (e, sym d) refl

  after_body :
      (r : Result Listener (Unit {0}))
      → Post
          (λ _ t. BodyOk sigfd (record (no_sockets host) { control = some m; host = h }) t)
          (λ e t. BodyErr sigfd (record (no_sockets host) { control = some m; host = h }) e t)
          r
      → Post
          (λ _ t. IsUp sigfd host t)
          (λ e t. IsDown sigfd host e t)
          (elim r [ ok u t ↦ ok u t | err e t ↦ err e (destroy_members t) ])
  unfolding destroy
  after_body (ok u t) (fd, sig, v, some_fd, c, same) =
      let d : t.host.descriptors ≡ fd ∷ m.fd ∷ host.descriptors =
        ap (λ (x : Host). x.descriptors) same ∙ ap (λ ks. fd ∷ ks) opened in
      (
        fd,
        sig,
        v,
        some_fd,
        (m, c, d),
        destroy-IsServing t v,
        closes t.control t.host (fd ∷ m.fd ∷ host.descriptors) c d
            ∙ control_closed fd m.fd host.descriptors,
      )
  after_body (err e t) (n, c, inl same) = (
    n,
    inl (
        closes t.control t.host (m.fd ∷ host.descriptors) c
          (ap (λ (x : Host). x.descriptors) same ∙ opened)
        ∙ first_closed m.fd host.descriptors),
  )
  after_body (err e t) (n, c, inr (fd, sig, x, same)) = (
    n,
    inr (
      fd,
      sig,
      x,
      closes t.control t.host (fd ∷ m.fd ∷ host.descriptors) c
            (ap (λ (x : Host). x.descriptors) same ∙ ap (λ ks. fd ∷ ks) opened)
          ∙ control_closed fd m.fd host.descriptors,
    ),
  )

-- A server that is constructed listens on at least one TCP socket, on each of its list and on no
-- other, and has the socket of its control manager and the descriptor for signals open besides; its
-- destructor closes them all but the descriptor for signals. A constructor that throws leaves no
-- socket open, and the other descriptors as they were, or with the one for signals where there was no
-- address to listen on.
pub construct-IsUp :
    (answers : ControllerAnswers) (rundir : List ℕ) (getaddrinfo : GetAddressInfo) (blocked : Bool)
    (sigfd : Option ℕ) (addresses : Option (List (List ℕ))) (port : List ℕ) (host : Host)
    → Post
        (λ _ t. IsUp sigfd host t)
        (λ e t. IsDown sigfd host e t)
        (construct answers rundir getaddrinfo blocked sigfd addresses port (no_sockets host))
unfolding construct
construct-IsUp answers rundir getaddrinfo blocked sigfd addresses port host =
    go (Controller.Manager.construct answers rundir host) (construct_lem answers rundir host)
  where
    go :
        (r : Result Host ControllerManager)
        → Post
            (λ m t.
              (length t.sun_path < sun_path_size)
              × (t.sun_path ≡ m.endpoint_filename)
              × (t.descriptors ≡ m.fd ∷ host.descriptors))
            (λ _ t. t.descriptors ≡ host.descriptors)
            r
        → Post
            (λ _ t. IsUp sigfd host t)
            (λ e t. IsDown sigfd host e t)
            (elim r [
              | err e h ↦ err e (record (no_sockets host) { host = h })
              | ok m h ↦
                  elim (construct_body getaddrinfo blocked sigfd addresses port
                    (record (no_sockets host) { control = some m; host = h })) [
                      | ok u t ↦ ok u t
                      | err e t ↦ err e (destroy_members t)
                    ]
            ])
    go (ok m h) (fits, named, opened) = after_body sigfd host m h opened _ (
        construct_body_lem getaddrinfo blocked sigfd addresses port
          (record (no_sockets host) { control = some m; host = h }) refl refl)
    go (err e h) same = (refl, inl same)
