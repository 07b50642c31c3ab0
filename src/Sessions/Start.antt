-- ===== src/Sessions/Start.antt =====
-- The constructor of Xvnc: the paths, the socket, the process with its command line, and the xauth
-- file. What the system answers is an argument; what the manager holds open is the state.
pub mod Laws
pub mod Address
use vncmanager.Base.{
  ℕ, zero, suc, ◌+◌, ◌%◌, Bool, true, false, not, Option, none, some, List, [], ◌∷◌, ◌++◌, map,
  length, ltb, ◌==◌, if◌then◌else◌, codes, Result, Action, ok, err, Error, errno, path_too_long,
  check, modify, pure, throw, when, ◌>>=◌, ◌>>◌, get_or,
}
use vncmanager.Sessions.DisplayNumber.{decimal, read_display_number}

-- The descriptors that are open, the children that run, the address that was last written to
-- `sun_path`, and what xauth was told.
pub record Host : Type 0 where
  pub descriptors : List ℕ
  pub children : List ℕ
  pub sun_path : List ℕ
  pub xauth_input : List ℕ

-- The options of the configuration that are read.
pub record XvncOptions : Type 0 where
  pub rundir : List ℕ
  pub geometry : List ℕ
  pub query : List ℕ
  pub xvnc : List ℕ
  pub xauth : List ℕ
  pub xvnc_args : List (List ℕ)

-- The answers: whether a call succeeds, or has the errno that the code allows; the descriptors and
-- the process id; what Xvnc writes to the pipe; and the draws of the random generator.
pub record Answers : Type 0 where
  pub mkdir : List ℕ → Bool
  pub unlink : Bool
  pub socket : Option ℕ
  pub bind : Bool
  pub listen : Bool
  pub pipe : Option (ℕ × ℕ)
  pub fork : Option ℕ
  pub displayfd : List ℕ
  pub open_xauth : Bool
  pub popen : List ℕ → Bool
  pub draws : List ℕ

abbrev pub open_fd : ℕ → Host → Host
open_fd fd s = record s { descriptors = fd ∷ s.descriptors }

abbrev pub remove_fd : ℕ → List ℕ → List ℕ
remove_fd fd [] = []
remove_fd fd (k ∷ ks) = if k == fd then ks else k ∷ remove_fd fd ks

abbrev pub close_fd : ℕ → Host → Host
close_fd fd s = record s { descriptors = remove_fd fd s.descriptors }

-- `throw_errno()` after a call that failed.
abbrev pub need : Bool → Action Host (Unit {0})
need b = check b errno

abbrev pub need_fd : Option ℕ → Action Host ℕ
need_fd none s = err errno s
need_fd (some fd) s = ok fd (open_fd fd s)

-- `sizeof(sockaddr_un::sun_path)`
abbrev pub sun_path_size : ℕ
sun_path_size = 108

abbrev pub socket_path : XvncOptions → List ℕ
socket_path o = o.rundir ++ codes "/socket"

abbrev pub auth_path : XvncOptions → List ℕ
auth_path o = o.rundir ++ codes "/auth"

-- `+ "/" + std::to_string(id)`
abbrev pub numbered : List ℕ → ℕ → List ℕ
numbered path id = path ++ (b'/' ∷ decimal id [])

-- The arguments of Xvnc that do not depend on the session.
abbrev pub override : List ℕ
override =
    codes "-AllowOverride=Desktop,AcceptPointerEvents,SendCutText,AcceptCutText,"
    ++ codes "MaxDisconnectionTime,MaxConnectionTime,MaxIdleTime,QueryConnect,QueryConnectTimeOut,"
    ++ codes "AlwaysShared,NeverShared,DisconnectClients,SecurityTypes,Password,PlainUsers"

-- `queryDisplayManager` is the flag; the list ends before the null pointer.
unfoldable pub arguments : XvncOptions → Bool → ℕ → List ℕ → List (List ℕ)
arguments o query_display_manager displayfd xauth_filename =
    (o.xvnc
      ∷ codes "-log"
      ∷ codes "*:syslog:30,TcpSocket:syslog:-1"
      ∷ codes "-inetd"
      ∷ codes "-MaxDisconnectionTime=5"
      ∷ codes "-securitytypes=none"
      ∷ codes "-displayfd"
      ∷ decimal displayfd []
      ∷ codes "-geometry"
      ∷ o.geometry
      ∷ override
      ∷ [])
    ++ ((if query_display_manager
          then codes "-query"
            ∷ o.query
            ∷ codes "-once"
            ∷ codes "-desktop"
            ∷ codes "New session"
            ∷ []
          else codes "-auth" ∷ xauth_filename ∷ codes "-desktop" ∷ codes "VNC manager" ∷ [])
        ++ o.xvnc_args)

-- What the object has when it is there.
pub record StartedXvnc : Type 0 where
  pub id : ℕ
  pub pid : ℕ
  pub display_number : ℕ
  pub socket_filename : List ℕ
  pub xauth_filename : List ℕ
  pub argv : List (List ℕ)

-- The guard of the socket's descriptor closes it, whether the block ends or throws.
abbrev pub with_fd : {A : Type 0} → ℕ → Action Host A → Action Host A
with_fd fd m s = elim (m s) [ ok a t ↦ ok a (close_fd fd t) | err e t ↦ err e (close_fd fd t) ]

abbrev pub need_pipe : Option (ℕ × ℕ) → Action Host (ℕ × ℕ)
need_pipe none s = err errno s
need_pipe (some (r, w)) s = ok (r, w) (open_fd r (open_fd w s))

abbrev pub need_child : Option ℕ → Action Host ℕ
need_child none s = err errno s
need_child (some pid) s = ok pid (record s { children = pid ∷ s.children })

abbrev pub read_display : ℕ → Answers → Action Host ℕ
read_display fd a s = elim (read_display_number 0 a.displayfd) [
  | ok n rest ↦ ok n (close_fd fd s)
  | err e rest ↦ err e s
]

-- Up to the fork, with the socket's guard.
unfoldable pub spawn : Answers → Action Host (ℕ × ℕ × ℕ)
spawn a = do
  need a.bind
  need a.listen
  (reading, writing) ← need_pipe a.pipe
  pid ← need_child a.fork
  modify (close_fd writing)
  pure (pid, reading, writing)

-- `execute`, in the parent.
unfoldable pub execute : Answers → List ℕ → Action Host (ℕ × ℕ × ℕ)
unfolding spawn read_display_number
execute a socket_filename = do
  need a.unlink
  modify (λ s. record s { sun_path = socket_filename })
  fd ← need_fd a.socket
  (pid, reading, writing) ← with_fd fd (spawn a)
  n ← read_display reading a
  pure (pid, n, writing)

-- `generateXAuthorityFile`: 32 digits, each of a draw from 0 to 15.
abbrev pub digits : List ℕ
digits = codes "0123456789abcdef"

abbrev pub cookie_digits : ℕ → List ℕ → List ℕ
cookie_digits zero ds = []
cookie_digits (suc n) [] = []
cookie_digits (suc n) (d ∷ ds) = get_or digits d 0 ∷ cookie_digits n ds

unfoldable pub xauth_cookie : List ℕ → List ℕ
xauth_cookie draws = cookie_digits 32 draws

-- What is written to xauth.
unfoldable pub xauth_script : ℕ → List ℕ → List ℕ
xauth_script display cookie =
    codes "remove :"
    ++ decimal display
        (10 ∷ (codes "add :" ++ decimal display (codes " . " ++ (cookie ++ (10 ∷ codes "exit\n")))))

-- The command that is run, for the option `xauth`.
unfoldable pub xauth_command : XvncOptions → List ℕ → List ℕ
xauth_command o xauth_filename = o.xauth ++ codes " -f " ++ xauth_filename ++ codes " -q"

unfoldable pub generate_xauthority_file :
    XvncOptions → Answers → List ℕ → ℕ → Action Host (Unit {0})
unfolding xauth_command xauth_cookie xauth_script
generate_xauthority_file o a xauth_filename display = do
  need a.open_xauth
  need (a.popen (xauth_command o xauth_filename))
  modify (λ s. record s { xauth_input = xauth_script display (xauth_cookie a.draws) })

unfoldable pub construct : XvncOptions → Answers → ℕ → Bool → Action Host StartedXvnc
unfolding execute generate_xauthority_file arguments
construct o a id query_display_manager = do
  need (a.mkdir o.rundir)
  need (a.mkdir (socket_path o))
  check (ltb (length (numbered (socket_path o) id)) sun_path_size) path_too_long
  when (not query_display_manager) (need (a.mkdir (auth_path o)))
  let xauth_filename = if query_display_manager then [] else numbered (auth_path o) id
  (pid, n, writing) ← execute a (numbered (socket_path o) id)
  when (not query_display_manager) (generate_xauthority_file o a xauth_filename n)
  pure (record {
    id = id;
    pid = pid;
    display_number = n;
    socket_filename = numbered (socket_path o) id;
    xauth_filename = xauth_filename;
    argv = arguments o query_display_manager writing xauth_filename;
  })
