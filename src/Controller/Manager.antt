-- ===== src/Controller/Manager.antt =====
-- ControllerManager.cpp: the constructor with the socket of the controllers, and the destructor. What
-- the system answers is an argument; the state is that of the constructor of Xvnc.
pub mod Laws
use vncmanager.Base.{
  ℕ, Bool, true, false, Option, none, some, List, [], ◌∷◌, ◌++◌, length, ltb, codes, Result, Action,
  ok, err, errno, path_too_long, check, modify, pure, ◌>>=◌, ◌>>◌,
}
use vncmanager.Sessions.Start.{Host, close_fd, need, need_fd, sun_path_size}

pub record ControllerAnswers : Type 0 where
  pub mkdir : Bool
  pub unlink : Bool
  pub socket : Option ℕ
  pub bind : Bool
  pub chmod : Bool
  pub listen : Bool

pub record ControllerManager : Type 0 where
  pub endpoint_filename : List ℕ
  pub fd : ℕ

abbrev pub endpoint : List ℕ → List ℕ
endpoint rundir = (rundir ++ codes "/control") ++ codes "/control"

-- `m_fd` is a guard, which closes the descriptor when the constructor throws.
abbrev pub or_close : {A : Type 0} → ℕ → Action Host A → Action Host A
or_close fd m s = elim (m s) [ ok a t ↦ ok a t | err e t ↦ err e (close_fd fd t) ]

-- Once the socket is there.
unfoldable pub serve : ControllerAnswers → Action Host (Unit {0})
serve a = do need a.bind; need a.chmod; need a.listen

-- The option `rundir`.
unfoldable pub construct : ControllerAnswers → List ℕ → Action Host ControllerManager
unfolding serve
construct a rundir = do
  need a.mkdir
  check (ltb (length (endpoint rundir)) sun_path_size) path_too_long
  need a.unlink
  modify (λ s. record s { sun_path = endpoint rundir })
  fd ← need_fd a.socket
  or_close fd (serve a)
  pure (record { endpoint_filename = endpoint rundir; fd = fd })
