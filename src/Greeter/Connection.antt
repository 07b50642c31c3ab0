-- ===== src/Greeter/Connection.antt =====
-- class GreeterConnection without its process: what it writes to the greeter program, and how it
-- reads commands. The input is a list of words, as `std::istream >> std::string` splits it.
use vncmanager.Base.{
  ℕ, ◌+◌, ◌-◌, ◌*◌, Bool, true, false, Option, none, some, List, [], ◌∷◌, ◌++◌, ltb, leb, ◌==◌,
  ◌&&◌, same_bytes, if◌then◌else◌, Action, ok, err, greeter_died,
}
use vncmanager.Sessions.Xvnc.{Xvnc}
use vncmanager.Sessions.DisplayNumber.{decimal}
use vncmanager.Sessions.Manager.{XvncManager, object, is_visible}

-- `out` is the text written. The two flags say whether `m_passwordHandler` and
-- `m_credentialsHandler` hold a function.
pub record GreeterConnection : Type 0 where
  pub greeter_pid : ℕ
  pub dead : Bool
  pub last_sent_session_list_version : ℕ
  pub out : List ℕ
  pub password_handler : Bool
  pub credentials_handler : Bool

abbrev pub spawned_greeter : ℕ → GreeterConnection
spawned_greeter pid = record {
  greeter_pid = pid;
  dead = false;
  last_sent_session_list_version = 0;
  out = [];
  password_handler = false;
  credentials_handler = false;
}

abbrev pub newline : ℕ
newline = 10

abbrev pub space : ℕ
space = 32

abbrev pub write : List ℕ → GreeterConnection → GreeterConnection
write text g = record g { out = g.out ++ text }

-- "SESSIONS", "GET PASSWORD", "GET CREDENTIALS", "ERROR" and "END ERROR"
abbrev pub sessions_word : List ℕ
sessions_word = b'S' ∷ b'E' ∷ b'S' ∷ b'S' ∷ b'I' ∷ b'O' ∷ b'N' ∷ b'S' ∷ newline ∷ []

abbrev pub get_password : List ℕ
get_password =
    b'G' ∷ b'E' ∷ b'T' ∷ space ∷ b'P' ∷ b'A' ∷ b'S' ∷ b'S' ∷ b'W' ∷ b'O' ∷ b'R' ∷ b'D' ∷ newline
    ∷ []

abbrev pub get_credentials : List ℕ
get_credentials =
    b'G' ∷ b'E' ∷ b'T' ∷ space ∷ b'C' ∷ b'R' ∷ b'E' ∷ b'D' ∷ b'E' ∷ b'N' ∷ b'T' ∷ b'I' ∷ b'A' ∷ b'L'
    ∷ b'S' ∷ newline ∷ []

abbrev pub error_word : List ℕ
error_word = b'E' ∷ b'R' ∷ b'R' ∷ b'O' ∷ b'R' ∷ newline ∷ []

abbrev pub end_error_word : List ℕ
end_error_word =
    newline ∷ b'E' ∷ b'N' ∷ b'D' ∷ space ∷ b'E' ∷ b'R' ∷ b'R' ∷ b'O' ∷ b'R' ∷ newline ∷ []

-- `std::count_if` over the sessions.
unfoldable pub count_visible : List Xvnc → List ℕ → ℕ
count_visible xs [] = 0
count_visible xs (i ∷ js) =
    if is_visible (object i xs) then count_visible xs js + 1 else count_visible xs js

-- `id username desktopname`, before `rest`.
unfoldable pub session_line : Option Xvnc → ℕ → List ℕ → List ℕ
unfolding decimal
session_line none i rest = rest
session_line (some x) i rest =
    if x.visible
    then decimal i (space ∷ (x.session_username ++ (space ∷ (x.desktop_name ++ (newline ∷ rest)))))
    else rest

unfoldable pub session_lines : List Xvnc → List ℕ → List ℕ
unfolding session_line
session_lines xs [] = []
session_lines xs (i ∷ js) = session_line (object i xs) i (session_lines xs js)

unfoldable pub send_sessions : XvncManager → GreeterConnection → GreeterConnection
unfolding count_visible session_lines decimal
send_sessions m g =
    write
      (sessions_word
        ++ decimal (count_visible m.objects m.xvncs) (newline ∷ session_lines m.objects m.xvncs))
      g

unfoldable pub update : XvncManager → Action GreeterConnection (Unit {0})
unfolding send_sessions
update m g =
    if g.dead
    then err greeter_died g
    else (if ltb g.last_sent_session_list_version m.session_list_version
        then ok tt
            (send_sessions m (record g { last_sent_session_list_version = m.session_list_version }))
        else ok tt g)

unfoldable pub ask_for_password : GreeterConnection → GreeterConnection
ask_for_password g = write get_password (record g { password_handler = true })

unfoldable pub ask_for_credentials : GreeterConnection → GreeterConnection
ask_for_credentials g = write get_credentials (record g { credentials_handler = true })

unfoldable pub show_error : List ℕ → GreeterConnection → GreeterConnection
show_error error g = write (error_word ++ error ++ end_error_word) g

unfoldable pub mark_dead : GreeterConnection → GreeterConnection
mark_dead g = record g { dead = true }

-- What `receive` read; the handler to call goes with it.
pub data Command : Type 0 where
  new_session : Command
  open_session : Option ℕ → Command
  password_given : List ℕ → Command
  credentials_given : List ℕ → List ℕ → Command
  no_command : Command

-- `std::istream >> int`: 0 where no number stands there, and `none` for a negative one, which is no
-- session's id.
abbrev pub digits_value : ℕ → List ℕ → ℕ
digits_value n [] = n
digits_value n (c ∷ cs) =
    if leb b'0' c && leb c b'9' then digits_value (n * 10 + (c - b'0')) cs else n

abbrev pub to_int : List ℕ → Option ℕ
to_int [] = some 0
to_int (c ∷ cs) = if c == b'-' then none else some (digits_value 0 (c ∷ cs))

abbrev pub word : List (List ℕ) → List ℕ
word [] = []
word (w ∷ ws) = w

abbrev pub next_words : List (List ℕ) → List (List ℕ)
next_words [] = []
next_words (w ∷ ws) = ws

abbrev pub new_word : List ℕ
new_word = b'N' ∷ b'E' ∷ b'W' ∷ []

abbrev pub open_word : List ℕ
open_word = b'O' ∷ b'P' ∷ b'E' ∷ b'N' ∷ []

abbrev pub password_word : List ℕ
password_word = b'P' ∷ b'A' ∷ b'S' ∷ b'S' ∷ b'W' ∷ b'O' ∷ b'R' ∷ b'D' ∷ []

abbrev pub credentials_word : List ℕ
credentials_word = b'C' ∷ b'R' ∷ b'E' ∷ b'D' ∷ b'E' ∷ b'N' ∷ b'T' ∷ b'I' ∷ b'A' ∷ b'L' ∷ b'S' ∷ []

-- The command, and the words that are left.
unfoldable pub receive : List (List ℕ) → Command × List (List ℕ)
receive words =
    let cmd = word words in
    let args = next_words words in
    if same_bytes cmd new_word
    then (new_session, args)
    else (if same_bytes cmd open_word
        then (open_session (to_int (word args)), next_words args)
        else (if same_bytes cmd password_word
            then (password_given (word args), next_words args)
            else (if same_bytes cmd credentials_word
                then (
                  credentials_given (word args) (word (next_words args)),
                  next_words (next_words args),
                )
                else (no_command, args))))
