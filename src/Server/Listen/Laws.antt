-- ===== src/Server/Listen/Laws.antt =====
-- The sockets that the constructor of Server leaves open, and those that the destructor closes.
use vncmanager.Base.{
  ℕ, ◌+◌, ◌≤◌, ◌≡◌, ◌≢◌, refl, sym, ap, ◌∙◌, arith, Bool, true, false, List, [], ◌∷◌, ◌++◌, ◌==◌,
  if◌then◌else◌, no_address, Post, Bool-cases, Option-cases, inl, inr, All,
}
use vncmanager.Server.Listen.{
  Family, inet, inet6, other_family, AddressInfo, Socket, Listener, close_socket, new_socket,
  set_v6only, listen_on, listen_results, GetAddressInfo, node, listen_addresses, is_empty, listen,
  close_all, destroy,
}

-- The descriptors, from the oldest socket on.
abbrev pub fds : List Socket → List ℕ
fds [] = []
fds (k ∷ ks) = fds ks ++ (k.fd ∷ [])

abbrev pub IsListening : Socket → Type 0
IsListening k = (k.bound ≡ true) × (k.listening ≡ true)

-- The open sockets are those of `m_listenfds`, and clients can connect to each.
pub record IsServing (s : Listener) : Type 0 where
  pub listed : s.listenfds ≡ fds s.sockets
  pub listening : All IsListening s.sockets

same_fd : (fd : ℕ) → (fd == fd) ≡ true
same_fd fd = ground arith

set_v6only_lem :
    (f : Family) (b : Bool) (fd : ℕ) (ks : List Socket)
    → (w : Bool) × (set_v6only f b fd (new_socket fd f ∷ ks)
        ≡ record (new_socket fd f) { v6only = w } ∷ ks)
set_v6only_lem inet b fd ks = (false, refl)
set_v6only_lem inet6 true fd ks = (true, rw (same_fd fd) refl)
set_v6only_lem inet6 false fd ks = (false, refl)
set_v6only_lem other_family b fd ks = (false, refl)

listen_on-IsServing :
    (a : AddressInfo) (fd : ℕ) (s : Listener) → IsServing s → IsServing (listen_on a fd s)
unfolding listen_on
listen_on-IsServing a fd s v =
    let (w, made) = set_v6only_lem a.family a.setsockopt fd s.sockets in
    rw made (elim (Bool-cases a.bind) [
      | inr unbound ↦ rw (unbound, same_fd fd) v
      | inl bound ↦ elim (Bool-cases a.listen) [
        | inr deaf ↦ rw (bound, deaf, same_fd fd, same_fd fd) v
        | inl hears ↦
            rw (bound, hears, same_fd fd, same_fd fd)
              (record {
                listed = ap (λ l. l ++ (fd ∷ [])) v.listed;
                listening = ((refl, refl), v.listening);
              })
      ]
    ])

listen_results-IsServing :
    (l : List AddressInfo) (s : Listener) → IsServing s → IsServing (listen_results l s)
unfolding listen_results
listen_results-IsServing [] s v = v
listen_results-IsServing (a ∷ rest) s v = elim (Option-cases a.socket) [
  | inl failed ↦ rw (failed, listen_results) (listen_results-IsServing rest s v)
  | inr (fd, made) ↦
      rw (made, listen_results)
        (listen_results-IsServing rest (listen_on a fd s) (listen_on-IsServing a fd s v))
]

nothing_listed : (l : List ℕ) → is_empty l ≡ true → l ≡ []
nothing_listed [] h = refl
nothing_listed (k ∷ ks) h = cc h

something_listed : (l : List ℕ) → is_empty l ≡ false → l ≢ []
something_listed [] h e = cc h
something_listed (k ∷ ks) h e = cc e

module _ (getaddrinfo : GetAddressInfo) (port : List ℕ) where
  listen_addresses-IsServing :
      (l : List (List ℕ)) (s : Listener)
      → IsServing s
      → IsServing (listen_addresses getaddrinfo l port s)
  listen_addresses-IsServing [] s v = v
  listen_addresses-IsServing (address ∷ rest) s v =
      elim (Option-cases (getaddrinfo (node address) port)) [
        | inl failed ↦ rw (failed, listen_addresses) (listen_addresses-IsServing rest s v)
        | inr (results, found) ↦
            rw (found, listen_addresses)
              (listen_addresses-IsServing rest _ (listen_results-IsServing results s v))
      ]

  -- A listen that fails has nothing to serve.
  pub listen-IsServing :
      (l : List (List ℕ)) (s : Listener)
      → IsServing s
      → Post
          (λ _ t. IsServing t × (t.listenfds ≢ []))
          (λ e t. (e ≡ no_address) × IsServing t × (t.listenfds ≡ []))
          (listen getaddrinfo l port s)
  unfolding listen
  listen-IsServing l s v =
      let t = listen_addresses getaddrinfo l port s in
      let served = listen_addresses-IsServing l s v in
      elim (Bool-cases (is_empty t.listenfds)) [
        | inl empty ↦ rw empty (refl, served, nothing_listed t.listenfds empty)
        | inr some_fd ↦ rw some_fd (served, something_listed t.listenfds some_fd)
      ]

-- How often a descriptor is in a list, and among the sockets.
one : ℕ → ℕ → ℕ
one n fd = if fd == n then 1 else 0

count : ℕ → List ℕ → ℕ
count n [] = 0
count n (k ∷ ks) = one n k + count n ks

held : ℕ → List Socket → ℕ
held n [] = 0
held n (k ∷ ks) = one n k.fd + held n ks

count-append : (n : ℕ) (l r : List ℕ) → count n (l ++ r) ≡ count n l + count n r
unfolding count
count-append n [] r = omega arith
count-append n (k ∷ ks) r = omega (arith, count-append n ks r)

count-fds : (n : ℕ) (ks : List Socket) → count n (fds ks) ≡ held n ks
unfolding count held
count-fds n [] = refl
count-fds n (k ∷ ks) = omega (arith, count-append n (fds ks) (k.fd ∷ []), count-fds n ks)

-- A descriptor that is closed is among the sockets once less.
held-close :
    (n fd : ℕ) (ks : List Socket)
    → 1 ≤ held fd ks
    → held n (close_socket fd ks) + one n fd ≡ held n ks
unfolding held one
held-close n fd [] h = omega arith
held-close n fd (k ∷ ks) h = elim (Bool-cases (k.fd == fd)) [
  | inl same ↦ rw same (ground arith)
  | inr other ↦
      rw other (let ih = held-close n fd ks (omega (arith, (rw other at h))) in omega (arith, ih))
]

close_all-empty :
    (l : List ℕ) (ks : List Socket) → ((n : ℕ) → held n ks ≡ count n l) → close_all l ks ≡ []
unfolding held count one
close_all-empty [] [] h = refl
close_all-empty [] (k ∷ ks) h = absurd (ground (arith, h k.fd))
close_all-empty (fd ∷ l) ks h =
    close_all-empty l (close_socket fd ks)
      (λ n. omega (arith, held-close n fd ks (ground (arith, h fd)), h n))

-- The destructor closes every socket that the constructor left.
pub destroy-IsServing : (s : Listener) → IsServing s → (destroy s).sockets ≡ []
unfolding destroy
destroy-IsServing s v =
    close_all-empty s.listenfds s.sockets
      (λ n. sym (count-fds n s.sockets) ∙ ap (count n) (sym v.listed))

-- Nothing is listed, so nothing is open.
pub none_open : (ks : List Socket) → fds ks ≡ [] → ks ≡ []
unfolding one
none_open [] h = refl
none_open (k ∷ ks) h = absurd (snoc_nonempty (fds ks) h)
  where
    snoc_nonempty : (l : List ℕ) → l ++ (k.fd ∷ []) ≢ []
    snoc_nonempty [] e = cc e
    snoc_nonempty (x ∷ xs) e = cc e
