-- ===== src/Sessions/Start/Address.antt =====
-- The address that the constructor of Xvnc copies with strcpy into `sun_path`.
use vncmanager.Base.{
  ℕ, ◌<◌, inl, inr, arith, Bool, not, Option, none, some, List, length, ltb, Result, Action, ok,
  err, after, Post, errno, path_too_long, check, modify, when, Keeps, Leads-bind, Leads-modify,
  Keeps-check, Keeps-when, Keeps-pure, Bool-cases, ◌>>◌,
}
use vncmanager.Base.{if◌then◌else◌, []}
use vncmanager.Sessions.DisplayNumber.{read_display_number}
use vncmanager.Sessions.Start.{
  Host, XvncOptions, Answers, close_fd, need, need_fd, sun_path_size, socket_path, auth_path,
  numbered, StartedXvnc, with_fd, need_pipe, need_child, read_display, spawn, execute,
  xauth_command, generate_xauthority_file, construct,
}

-- What was last copied left room for the null character.
abbrev pub Fits : Host → Type 0
Fits s = length s.sun_path < sun_path_size

abbrev StaysFit : {A : Type 0} → Action Host A → Type 0
StaysFit m = Keeps Fits (λ _ s. Fits s) m

need-StaysFit : (b : Bool) → StaysFit (need b)
need-StaysFit b = Keeps-check b errno (λ s h. h)

need_fd-StaysFit : (o : Option ℕ) → StaysFit (need_fd o)
need_fd-StaysFit none = record { at = λ s h. h }
need_fd-StaysFit (some fd) = record { at = λ s h. h }

need_pipe-StaysFit : (o : Option (ℕ × ℕ)) → StaysFit (need_pipe o)
need_pipe-StaysFit none = record { at = λ s h. h }
need_pipe-StaysFit (some (r, w)) = record { at = λ s h. h }

need_child-StaysFit : (o : Option ℕ) → StaysFit (need_child o)
need_child-StaysFit none = record { at = λ s h. h }
need_child-StaysFit (some pid) = record { at = λ s h. h }

with_fd-StaysFit : {A : Type 0} (fd : ℕ) (m : Action Host A) → StaysFit m → StaysFit (with_fd fd m)
with_fd-StaysFit {A} fd m k = record { at = λ s h. go (m s) (k.at s h) }
  where
    go :
        (r : Result Host A)
        → Post (λ _ t. Fits t) (λ _ t. Fits t) r
        → Post
            (λ _ t. Fits t)
            (λ _ t. Fits t)
            (elim r [ ok a t ↦ ok a (close_fd fd t) | err e t ↦ err e (close_fd fd t) ])
    go (ok a t) h = h
    go (err e t) h = h

read_display-StaysFit : (fd : ℕ) (a : Answers) → StaysFit (read_display fd a)
read_display-StaysFit fd a = record { at = λ s h. go s h (read_display_number 0 a.displayfd) }
  where
    go :
        (s : Host)
        → Fits s
        → (r : Result (List ℕ) ℕ)
        → Post
            (λ _ t. Fits t)
            (λ _ t. Fits t)
            (elim r [ ok n rest ↦ ok n (close_fd fd s) | err e rest ↦ err e s ])
    go s h (ok n rest) = h
    go s h (err e rest) = h

spawn-StaysFit : (a : Answers) → StaysFit (spawn a)
unfolding spawn
spawn-StaysFit a = Leads-bind (need a.bind) _ (need-StaysFit a.bind) (λ _.
    Leads-bind (need a.listen) _ (need-StaysFit a.listen) (λ _.
      Leads-bind (need_pipe a.pipe) _ (need_pipe-StaysFit a.pipe) (λ (r, w).
        Leads-bind (need_child a.fork) _ (need_child-StaysFit a.fork) (λ pid.
          Leads-bind (modify (close_fd w)) _ (Leads-modify (close_fd w) (λ s h. h))
            (λ _. Keeps-pure (pid, r, w))))))

execute-StaysFit :
    (a : Answers) (path : List ℕ) → length path < sun_path_size → StaysFit (execute a path)
unfolding execute
execute-StaysFit a path h = Leads-bind (need a.unlink) _ (need-StaysFit a.unlink) (λ _.
    Leads-bind (modify (λ s. record s { sun_path = path })) _
      (Leads-modify (λ s. record s { sun_path = path }) (λ _ _. h))
      (λ _. Leads-bind (need_fd a.socket) _ (need_fd-StaysFit a.socket) (λ fd.
        Leads-bind (with_fd fd (spawn a)) _ (with_fd-StaysFit fd (spawn a) (spawn-StaysFit a))
          (λ (pid, r, w).
            Leads-bind (read_display r a) _ (read_display-StaysFit r a)
              (λ n. Keeps-pure (pid, n, w))))))

generate-StaysFit :
    (o : XvncOptions) (a : Answers) (file : List ℕ) (n : ℕ)
    → StaysFit (generate_xauthority_file o a file n)
unfolding generate_xauthority_file
generate-StaysFit o a file n = Leads-bind (need a.open_xauth) _ (need-StaysFit a.open_xauth) (λ _.
    Leads-bind (need (a.popen (xauth_command o file))) _
      (need-StaysFit (a.popen (xauth_command o file))) (λ _. Leads-modify _ (λ s h. h)))

module _ (o : XvncOptions) (a : Answers) (id : ℕ) (query : Bool) where
  abbrev filename : List ℕ
  filename = if query then [] else numbered (auth_path o) id

  abbrev address : List ℕ
  address = numbered (socket_path o) id

  -- From the test of the path's length on.
  abbrev checked_part : Action Host StartedXvnc → Action Host StartedXvnc
  checked_part rest = check (ltb (length address) sun_path_size) path_too_long >> rest

  checked_part-StaysFit :
      (rest : Action Host StartedXvnc)
      → (length address < sun_path_size → StaysFit rest)
      → StaysFit (checked_part rest)
  checked_part-StaysFit rest k = elim (Bool-cases (ltb (length address) sun_path_size)) [
    | inl fits ↦ rw fits (k (ground arith))
    | inr long ↦ rw long (record { at = λ s h. h })
  ]

  construct-StaysFit : StaysFit (construct o a id query)
  unfolding construct
  construct-StaysFit = Leads-bind (need (a.mkdir o.rundir)) _ (need-StaysFit _) (λ _.
      Leads-bind (need (a.mkdir (socket_path o))) _ (need-StaysFit _) (λ _.
        checked_part-StaysFit _ (λ fits.
          Leads-bind (when (not query) (need (a.mkdir (auth_path o)))) _
            (Keeps-when (not query) _ (need-StaysFit _))
            (λ _. Leads-bind (execute a address) _ (execute-StaysFit a address fits) (λ (pid, n, w).
              Leads-bind (when (not query) (generate_xauthority_file o a filename n)) _
                (Keeps-when (not query) _ (generate-StaysFit o a filename n))
                (λ _. Keeps-pure _))))))

  -- strcpy writes no more than sun_path holds, its null character included, whatever the configured
  -- directory and the id.
  pub construct-Fits : (s : Host) → Fits s → Fits (after (construct o a id query s))
  construct-Fits s h = go (construct o a id query s) (construct-StaysFit.at s h)
    where
      go : (r : Result Host StartedXvnc) → Post (λ _ t. Fits t) (λ _ t. Fits t) r → Fits (after r)
      go (ok x t) k = k
      go (err e t) k = k
