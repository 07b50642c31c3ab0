-- ===== src/Greeter/Start.antt =====
-- The constructor and the destructor of GreeterConnection: the pipes, the process and its end. What
-- the system answers is an argument.
pub mod Laws
use vncmanager.Base.{
  ℕ, Bool, true, false, Option, none, some, List, [], ◌∷◌, ◌++◌, codes, if◌then◌else◌, Action, ok,
  err, errno, modify, pure, ◌>>=◌, ◌>>◌,
}
use vncmanager.Sessions.Start.{remove_fd}

-- The descriptors that are open, the children that were started, and those that were sent SIGTERM.
pub record Host : Type 0 where
  pub descriptors : List ℕ
  pub children : List ℕ
  pub terminated : List ℕ

-- The read end and the write end of each pipe, and the process.
pub record Answers : Type 0 where
  pub stdin_pipe : Option (ℕ × ℕ)
  pub stdout_pipe : Option (ℕ × ℕ)
  pub fork : Option ℕ

-- What the object has of its process, with the command line and the environment that the child gets.
pub record StartedGreeter : Type 0 where
  pub greeter_pid : ℕ
  pub greeter_stdin : ℕ
  pub greeter_stdout : ℕ
  pub argv : List (List ℕ)
  pub envp : List (List ℕ)

abbrev pub close_fd : ℕ → Action Host (Unit {0})
close_fd fd s = ok tt (record s { descriptors = remove_fd fd s.descriptors })

abbrev pub open_pipe : Option (ℕ × ℕ) → Action Host (ℕ × ℕ)
open_pipe none s = err errno s
open_pipe (some (r, w)) s = ok (r, w) (record s { descriptors = r ∷ w ∷ s.descriptors })

abbrev pub fork_child : Option ℕ → Action Host ℕ
fork_child none s = err errno s
fork_child (some pid) s = ok pid (record s { children = pid ∷ s.children })

-- The option `greeter`, and the display with its xauth file.
unfoldable pub construct : Answers → List ℕ → List ℕ → List ℕ → Action Host StartedGreeter
construct a greeter display xauth_filename = do
  (stdin_read, stdin_write) ← open_pipe a.stdin_pipe
  (stdout_read, stdout_write) ← open_pipe a.stdout_pipe
  pid ← fork_child a.fork
  close_fd stdin_read
  close_fd stdout_write
  pure (record {
    greeter_pid = pid;
    greeter_stdin = stdin_write;
    greeter_stdout = stdout_read;
    argv = greeter ∷ [];
    envp = (codes "DISPLAY=" ++ display) ∷ (codes "XAUTHORITY=" ++ xauth_filename) ∷ [];
  })

-- `dead` is the flag that `markDead` sets.
unfoldable pub destroy : StartedGreeter → Bool → Action Host (Unit {0})
destroy g dead = do
  modify
      (λ s. record s { terminated = if dead then s.terminated else g.greeter_pid ∷ s.terminated })
  close_fd g.greeter_stdin
  close_fd g.greeter_stdout
