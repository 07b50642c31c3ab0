-- ===== src/Controller/Manager/Laws.antt =====
-- What the constructor of ControllerManager leaves.
use vncmanager.Base.{
  ℕ, ◌≡◌, ◌<◌, refl, arith, List, ◌∷◌, length, ltb, Post, Bool-cases, Option-cases, inl, inr,
}
use vncmanager.Sessions.Start.{Host, remove_fd, sun_path_size}
use vncmanager.Controller.Manager.{ControllerAnswers, endpoint, serve, construct}

closed : (fd : ℕ) (ks : List ℕ) → remove_fd fd (fd ∷ ks) ≡ ks
closed fd ks = ground arith

-- A manager that is constructed has one descriptor more, bound to its file, whose path fits the address;
-- an exception leaves the descriptors as they were.
pub construct_lem :
    (a : ControllerAnswers) (rundir : List ℕ) (s : Host)
    → Post
        (λ m t.
          (length t.sun_path < sun_path_size)
          × (t.sun_path ≡ m.endpoint_filename)
          × (t.descriptors ≡ m.fd ∷ s.descriptors))
        (λ _ t. t.descriptors ≡ s.descriptors)
        (construct a rundir s)
unfolding construct serve
construct_lem a rundir s = elim (Bool-cases a.mkdir) [
  | inr h0 ↦ rw h0 refl
  | inl h0 ↦ elim (Bool-cases (ltb (length (endpoint rundir)) sun_path_size)) [
    | inr h1 ↦ rw (h0, h1) refl
    | inl h1 ↦ elim (Bool-cases a.unlink) [
      | inr h2 ↦ rw (h0, h1, h2) refl
      | inl h2 ↦ elim (Option-cases a.socket) [
        | inl h3 ↦ rw (h0, h1, h2, h3) refl
        | inr (fd, h3) ↦ elim (Bool-cases a.bind) [
          | inr h4 ↦ rw (h0, h1, h2, h3, h4) (closed fd s.descriptors)
          | inl h4 ↦ elim (Bool-cases a.chmod) [
            | inr h5 ↦ rw (h0, h1, h2, h3, h4, h5) (closed fd s.descriptors)
            | inl h5 ↦ elim (Bool-cases a.listen) [
              | inr h6 ↦ rw (h0, h1, h2, h3, h4, h5, h6) (closed fd s.descriptors)
              | inl h6 ↦ rw (h0, h1, h2, h3, h4, h5, h6) (ground arith, refl, refl)
            ]
          ]
        ]
      ]
    ]
  ]
]
