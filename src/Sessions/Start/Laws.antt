-- ===== src/Sessions/Start/Laws.antt =====
-- What the constructor of Xvnc leaves open, and the length of the address that it binds.
use vncmanager.Base.{
  ℕ, ◌≡◌, ◌≢◌, ◌⊎◌, inl, inr, refl, ap, ◌∙◌, arith, Bool, true, false, not, Option, none, some,
  List, ◌∷◌, length, ltb, Result, Action, ok, err, Error, Post, Post-bind, errno, path_too_long,
  check, modify, pure, when, Bool-cases, Option-cases, ◌>>=◌, ◌>>◌,
}
use mathlib.Core.Path.{subst}
use vncmanager.Base.{if◌then◌else◌, []}
use vncmanager.Sessions.DisplayNumber.{read_display_number}
use vncmanager.Sessions.Start.{
  Host, XvncOptions, Answers, remove_fd, close_fd, need, need_fd, sun_path_size, socket_path,
  auth_path, numbered, StartedXvnc, with_fd, read_display, spawn, execute, xauth_command,
  generate_xauthority_file, construct,
}

-- How the constructor can leave the descriptors and the children that were there before, when it
-- throws: with a pipe, with a half of one, or with a child that runs on.
pub data Leaves (a : Answers) (s t : Host) : Type 0 where
  nothing : t.descriptors ≡ s.descriptors → t.children ≡ s.children → Leaves a s t
  whole_pipe :
      (reading writing : ℕ)
      → a.pipe ≡ some (reading, writing)
      → a.fork ≡ none
      → t.descriptors ≡ reading ∷ writing ∷ s.descriptors
      → t.children ≡ s.children
      → Leaves a s t
  half_pipe :
      (reading writing pid : ℕ)
      → a.pipe ≡ some (reading, writing)
      → a.fork ≡ some pid
      → t.descriptors ≡ reading ∷ s.descriptors
      → t.children ≡ pid ∷ s.children
      → Leaves a s t
  child_only :
      (pid : ℕ)
      → a.fork ≡ some pid
      → t.descriptors ≡ s.descriptors
      → t.children ≡ pid ∷ s.children
      → Leaves a s t

-- The kernel gives a descriptor that is not in use.
abbrev pub AreDistinct : Option ℕ → Option (ℕ × ℕ) → Type 0
AreDistinct none p = Unit
AreDistinct (some fd) none = Unit
AreDistinct (some fd) (some (reading, writing)) = (reading ≢ fd) × (writing ≢ fd)

remove-first : (r : ℕ) (ks : List ℕ) → remove_fd r (r ∷ ks) ≡ ks
remove-first r ks = ground arith

remove-second : (r w : ℕ) (ks : List ℕ) → remove_fd w (r ∷ w ∷ ks) ≡ r ∷ ks
remove-second r w ks = ground arith

remove-third :
    (r w fd : ℕ) (ks : List ℕ) → r ≢ fd → w ≢ fd → remove_fd fd (r ∷ w ∷ fd ∷ ks) ≡ r ∷ w ∷ ks
remove-third r w fd ks h k = ground arith

-- The state `t` has these descriptors, and these children.
abbrev Has : List ℕ → List ℕ → Host → Type 0
Has ds cs t = (t.descriptors ≡ ds) × (t.children ≡ cs)

module _ (a : Answers) (s : Host) where
  -- What the block that holds the socket leaves, the socket's descriptor among it.
  abbrev Spawned : ℕ → ℕ × ℕ × ℕ → Host → Type 0
  Spawned fd (pid, reading, writing) t =
      (a.pipe ≡ some (reading, writing))
      × (a.fork ≡ some pid)
      × Has (reading ∷ fd ∷ s.descriptors) (pid ∷ s.children) t

  abbrev NotSpawned : ℕ → Error → Host → Type 0
  NotSpawned fd e t =
      Has (fd ∷ s.descriptors) s.children t
      ⊎ ((p : ℕ × ℕ) × (a.pipe ≡ some p)
          × (a.fork ≡ none)
          × Has (p.0 ∷ p.1 ∷ fd ∷ s.descriptors) s.children t)

  spawn_lem :
      (fd : ℕ) (t : Host)
      → Has (fd ∷ s.descriptors) s.children t
      → Post (Spawned fd) (NotSpawned fd) (spawn a t)
  unfolding spawn
  spawn_lem fd t h = elim (Bool-cases a.bind) [
    | inr unbound ↦ rw unbound (inl h)
    | inl bound ↦ elim (Bool-cases a.listen) [
      | inr deaf ↦ rw (bound, deaf) (inl h)
      | inl listening ↦ elim (Option-cases a.pipe) [
        | inl no_pipe ↦ rw (bound, listening, no_pipe) (inl h)
        | inr ((r, w), piped) ↦ elim (Option-cases a.fork) [
          | inl no_child ↦
              rw (bound, listening, piped, no_child)
                (inr ((r, w), refl, refl, (ap (λ ds. r ∷ w ∷ ds) h.0, h.1)))
          | inr (pid, forked) ↦
              rw (bound, listening, piped, forked)
                (refl, refl, (remove-second r w t.descriptors ∙ ap (◌∷◌ r) h.0, ap (◌∷◌ pid) h.1))
        ]
      ]
    ]
  ]

  checked :
      (b : Bool) (e : Error) (t : Host)
      → Has s.descriptors s.children t
      → Post (λ _ u. Has s.descriptors s.children u) (λ _ u. Leaves a s u) (check b e t)
  checked true e t h = h
  checked false e t (d, c) = nothing d c

  module _ (distinct : AreDistinct a.socket a.pipe) where
    -- Once the socket is closed.
    abbrev Forked : ℕ × ℕ × ℕ → Host → Type 0
    Forked (pid, reading, writing) t =
        (a.pipe ≡ some (reading, writing))
        × (a.fork ≡ some pid)
        × Has (reading ∷ s.descriptors) (pid ∷ s.children) t

    closed_lem :
        (fd : ℕ)
        → a.socket ≡ some fd
        → (r : Result Host (ℕ × ℕ × ℕ)) → Post (Spawned fd) (NotSpawned fd) r
        → Post Forked
            (λ _ t. Leaves a s t)
            (elim r [ ok x t ↦ ok x (close_fd fd t) | err e t ↦ err e (close_fd fd t) ])
    closed_lem fd e (ok (pid, r, w) t) (p, f, (d, c)) =
        (p, f, (ap (remove_fd fd) d ∙ remove-second r fd s.descriptors, c))
    closed_lem fd e (err x t) (inl (d, c)) =
        nothing (ap (remove_fd fd) d ∙ remove-first fd s.descriptors) c
    closed_lem fd e (err x t) (inr ((r, w), p, f, (d, c))) =
        let apart : AreDistinct (some fd) (some (r, w)) =
          subst (λ o. AreDistinct o (some (r, w))) e (subst (AreDistinct a.socket) p distinct) in
        whole_pipe r w p f (ap (remove_fd fd) d ∙ remove-third r w fd s.descriptors apart.0 apart.1)
          c

    -- The display number was read: nothing but the child is left.
    abbrev Executed : ℕ × ℕ × ℕ → Host → Type 0
    Executed (pid, n, writing) t = (a.fork ≡ some pid) × Has s.descriptors (pid ∷ s.children) t

    read_lem :
        (pid reading writing : ℕ) (t : Host)
        → Forked (pid, reading, writing) t
        → Post
            (λ n u. Executed (pid, n, writing) u)
            (λ _ u. Leaves a s u)
            (read_display reading a t)
    read_lem pid reading writing t (p, f, (d, c)) = go (read_display_number 0 a.displayfd)
      where
        go :
            (r : Result (List ℕ) ℕ)
            → Post
                (λ n u. Executed (pid, n, writing) u)
                (λ _ u. Leaves a s u)
                (elim r [ ok n rest ↦ ok n (close_fd reading t) | err e rest ↦ err e t ])
        go (ok n rest) = (f, (ap (remove_fd reading) d ∙ remove-first reading s.descriptors, c))
        go (err e rest) = half_pipe reading writing pid p f d c

    abbrev Opened : Option ℕ → ℕ → Host → Type 0
    Opened o fd t = (o ≡ some fd) × Has (fd ∷ s.descriptors) s.children t

    need_fd_lem :
        (o : Option ℕ) (t : Host)
        → Has s.descriptors s.children t
        → Post (Opened o) (λ _ u. Leaves a s u) (need_fd o t)
    need_fd_lem none t (d, c) = nothing d c
    need_fd_lem (some fd) t (d, c) = (refl, (ap (◌∷◌ fd) d, c))

    -- `execute` from the socket on.
    abbrev with_socket : ℕ → Action Host (ℕ × ℕ × ℕ)
    with_socket fd = with_fd fd (spawn a) >>= λ (pid, reading, writing).
        read_display reading a >>= λ n. pure (pid, n, writing)

    with_socket_lem :
        (fd : ℕ) (t : Host)
        → Opened a.socket fd t
        → Post Executed (λ _ u. Leaves a s u) (with_socket fd t)
    with_socket_lem fd t (e, h) =
        Post-bind Forked Executed (λ _ u. Leaves a s u) (with_fd fd (spawn a))
          (λ (pid, reading, writing). read_display reading a >>= λ n. pure (pid, n, writing)) t
          (closed_lem fd e (spawn a t) (spawn_lem fd t h))
          (λ (pid, reading, writing) u f.
            Post-bind (λ n v. Executed (pid, n, writing) v) Executed (λ _ v. Leaves a s v)
              (read_display reading a) (λ n. pure (pid, n, writing)) u
              (read_lem pid reading writing u f) (λ n v x. x))

    execute_lem :
        (path : List ℕ) (t : Host)
        → Has s.descriptors s.children t
        → Post Executed (λ _ u. Leaves a s u) (execute a path t)
    unfolding execute
    execute_lem path t (d, c) =
        Post-bind (λ _ u. Has s.descriptors s.children u) Executed (λ _ u. Leaves a s u)
          (need a.unlink)
          (λ _. modify (λ u. record u { sun_path = path }) >> (need_fd a.socket >>= with_socket)) t
          (checked a.unlink errno t (d, c))
          (λ _ u h.
            Post-bind (Opened a.socket) Executed (λ _ v. Leaves a s v) (need_fd a.socket)
              with_socket (record u { sun_path = path })
              (need_fd_lem a.socket (record u { sun_path = path }) h) with_socket_lem)

    -- The child runs, and nothing but it is left.
    abbrev Running : ℕ → Host → Type 0
    Running pid t = (a.fork ≡ some pid) × Has s.descriptors (pid ∷ s.children) t

    need-Running :
        (b : Bool) (pid : ℕ) (t : Host)
        → Running pid t
        → Post (λ _ u. Running pid u) (λ _ u. Leaves a s u) (need b t)
    need-Running true pid t h = h
    need-Running false pid t (f, (d, c)) = child_only pid f d c

    generate_lem :
        (b : Bool) (o : XvncOptions) (file : List ℕ) (pid n : ℕ) (t : Host)
        → Running pid t
        → Post
            (λ _ u. Running pid u)
            (λ _ u. Leaves a s u)
            (when b (generate_xauthority_file o a file n) t)
    unfolding generate_xauthority_file
    generate_lem false o file pid n t h = h
    generate_lem true o file pid n t h =
        Post-bind (λ _ u. Running pid u) (λ _ u. Running pid u) (λ _ u. Leaves a s u)
          (need a.open_xauth) _ t (need-Running a.open_xauth pid t h)
          (λ _ u k.
            Post-bind (λ _ v. Running pid v) (λ _ v. Running pid v) (λ _ v. Leaves a s v)
              (need (a.popen (xauth_command o file))) _ u
              (need-Running (a.popen (xauth_command o file)) pid u k) (λ _ v x. x))

    -- An Xvnc that is constructed leaves the manager's descriptors as they were and one child more, its
    -- own process; an exception leaves them as they were, or with one of the three leftovers.
    pub construct-Leaves :
        (o : XvncOptions) (id : ℕ) (query : Bool)
        → Post (λ x t. Running x.pid t) (λ _ t. Leaves a s t) (construct o a id query s)
    unfolding construct
    construct-Leaves o id query =
        Post-bind Here Done Left (need (a.mkdir o.rundir)) _ s (checked _ errno s (refl, refl))
          (λ _ t h.
            Post-bind Here Done Left (need (a.mkdir (socket_path o))) _ t (checked _ errno t h)
              (λ _ u k.
                Post-bind Here Done Left
                  (check (ltb (length (numbered (socket_path o) id)) sun_path_size) path_too_long) _
                  u (checked _ path_too_long u k)
                  (λ _ v l.
                    Post-bind Here Done Left (when (not query) (need (a.mkdir (auth_path o)))) _ v
                      (when_lem (not query) v l)
                      (λ _ w m.
                        Post-bind Executed Done Left (execute a (numbered (socket_path o) id)) _ w
                          (execute_lem (numbered (socket_path o) id) w m)
                          (λ (pid, n, writing) x r.
                            Post-bind (λ _ y. Running pid y) Done Left
                              (when (not query) (generate_xauthority_file o a filename n)) _ x
                              (generate_lem (not query) o filename pid n x r) (λ _ y z. z))))))
      where
        filename : List ℕ
        filename = if query then [] else numbered (auth_path o) id

        Here : Unit {0} → Host → Type 0
        Here _ t = Has s.descriptors s.children t

        Done : StartedXvnc → Host → Type 0
        Done x t = Running x.pid t

        Left : Error → Host → Type 0
        Left _ t = Leaves a s t

        when_lem :
            (b : Bool) (t : Host)
            → Here tt t
            → Post Here Left (when b (need (a.mkdir (auth_path o))) t)
        when_lem true t h = checked (a.mkdir (auth_path o)) errno t h
        when_lem false t h = h
