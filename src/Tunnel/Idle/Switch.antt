-- ===== src/Tunnel/Idle/Switch.antt =====
-- A command of the greeter leaves the buffers empty, whether the switch that it asks for succeeds.
use vncmanager.Base.{
  ℕ, ◌≡◌, [], arith, Bool, Option, none, some, Result, Action, ok, err, of_potential, gets, modify,
  throw, check, Error, Post, Leads-throw, Leads-modify, Leads-bind, Keeps-check, Keeps-pure,
  Keeps-gets, Bool-cases, inl, inr, assertion, bad_function_call, use_after_free,
}
use vncmanager.Tunnel.Run.{is_connection_exception}
use vncmanager.Rfb.Pixel.{other_format}
use vncmanager.Formatter.{Peer}
use vncmanager.Sessions.Manager.{XvncManager, Spawn, create_session, get_session, object}
use vncmanager.Connection.State.{Connection, State}
use vncmanager.Connection.Initialize.{
  Progress, initialized, password_requested, credentials_requested, initialize, Cipher,
  handle_vnc_auth_security_with_password, handle_vencrypt_security_with_credentials,
}
use vncmanager.Connection.Requests.{
  send_set_pixel_format, send_set_encodings, send_non_incremental_framebuffer_update_request,
}
use vncmanager.Greeter.Connection.{
  GreeterConnection, ask_for_password, ask_for_credentials, Command, new_session, open_session,
  password_given, credentials_given, no_command,
}
use vncmanager.Tunnel.State.{Tunnel}
use vncmanager.Tunnel.Switch.{
  cancel, has_connection, delete_connection, delete_potential, new_potential, on_potential, promote,
  has_greeter, has_potential, release_greeter, replace_current, brief_server, queue_changes,
  connection_switched, on_greeter, proceed, enable_tight, switch_to_connection,
  open_session_handler, on_manager, new_session_handler, has_password_handler,
  has_credentials_handler, greeter_command,
}
use vncmanager.Tunnel.Idle.{AllClear, IsIdle, IsSpared}
use vncmanager.Tunnel.Idle.Tight.{Idles}
use vncmanager.Tunnel.Idle.Handshake.{
  IsQuiet, QuietIf, Quiets, initialize-Quiets, password-Quiets, credentials-Quiets,
}

-- Whatever is thrown between two steps, the buffers are empty.
throws : {A : Type 0} (e : Error) → Idles (throw {A = A} e)
throws e = Leads-throw e (λ t h k. h)

checks : (b : Bool) (e : Error) → Idles (check b e)
checks b e = Keeps-check b e (λ t h k. h)

delete_connection-Idles : (c : Connection) → Idles (delete_connection c)
unfolding delete_connection
delete_connection-Idles c = record {
  at = λ t h. elim (Bool-cases (has_connection (object c.xvnc t.manager.objects))) [
    | inl counted ↦ rw counted h
    | inr lost ↦ rw lost (λ k. h)
  ];
}

deleted :
    (t : Tunnel)
    → IsIdle t
    → (p : Option Connection)
    → Post (λ _ u. IsIdle u) IsSpared (elim p [ none ↦ ok tt t | some c ↦ delete_connection c t ])
deleted t h none = h
deleted t h (some c) = (delete_connection-Idles c).at t h

pub delete_potential-Idles : Idles delete_potential
unfolding delete_potential
delete_potential-Idles = record { at = λ t h. deleted t h t.potential }

-- A new connection has a formatter of its own, with an empty buffer.
abbrev pub IsFresh : Option Peer → Type 0
IsFresh none = Unit
IsFresh (some p) = p.pushed ≡ []

new_potential-Idles :
    (i : Option ℕ) (opened : Option Peer) → IsFresh opened → Idles (new_potential i opened)
unfolding new_potential
new_potential-Idles none opened fresh = record { at = λ t h k. h }
new_potential-Idles (some i) none fresh = record { at = λ t h k. h }
new_potential-Idles (some i) (some p) fresh = record { at = λ t (c, s, _). (c, s, fresh) }

module _ {A : Type 0} (m : Action State A) (quiets : Quiets m) where
  potential_result :
      (t : Tunnel)
      → IsIdle t
      → (r : Result State A) → Post (λ _ s. IsQuiet s) QuietIf r
      → Post
          (λ _ u. IsIdle u)
          IsSpared
          (elim r [
            | ok a s ↦ ok a (record t { potential = some s.connection; manager = s.manager })
            | err e s ↦
                err
                  (of_potential e)
                  (record t { potential = some s.connection; manager = s.manager })
          ])
  unfolding is_connection_exception
  potential_result t (c, s, _) (ok a u) q = (c, s, q)
  potential_result t (c, s, _) (err e u) q = λ k. (c, s, q k)

  potential_rest :
      (t : Tunnel)
      → IsIdle t
      → (p : Option Connection) → AllClear p
      → Post
          (λ _ u. IsIdle u)
          IsSpared
          (elim p [
            | none ↦ err use_after_free t
            | some c ↦ elim (m (record { connection = c; manager = t.manager })) [
              | ok a s ↦ ok a (record t { potential = some s.connection; manager = s.manager })
              | err e s ↦
                  err
                    (of_potential e)
                    (record t { potential = some s.connection; manager = s.manager })
            ]
          ])
  potential_rest t h none q = λ k. h
  potential_rest t h (some c) q =
      potential_result t h (m _) (quiets.at (record { connection = c; manager = t.manager }) q)

  on_potential-Idles : Idles (on_potential m)
  on_potential-Idles = record { at = λ t h. potential_rest t h t.potential h.2 }

promoted :
    (t : Tunnel)
    → IsIdle t
    → (p : Option Connection) → AllClear p
    → Post
        (λ _ u. IsIdle u)
        IsSpared
        (elim p [
          | none ↦ err assertion t
          | some c ↦ ok tt (record t { current = c; potential = none })
        ])
promoted t h none q = λ k. h
promoted t (c, s, _) (some d) q = (c, q, tt)

promote-Idles : Idles promote
unfolding promote
promote-Idles = record { at = λ t h. promoted t h t.potential h.2 }

release_greeter-Idles : Idles release_greeter
unfolding release_greeter
release_greeter-Idles = Leads-bind (gets (λ t. t.greeter)) _ (Keeps-gets _) (λ g.
    Leads-bind (check (has_greeter g) assertion) _ (checks _ _)
      (λ _. Leads-modify (λ t. record t { greeter = none }) (λ t h. h)))

replace_current-Idles : Idles replace_current
unfolding replace_current
replace_current-Idles = Leads-bind (gets (λ t. t.potential)) _ (Keeps-gets _) (λ p.
    Leads-bind (check (has_potential p) assertion) _ (checks _ _) (λ _.
      Leads-bind (gets (λ t. t.current)) _ (Keeps-gets _)
        (λ c. Leads-bind (delete_connection c) _ (delete_connection-Idles c) (λ _. promote-Idles))))

brief_server-Idles : Idles brief_server
unfolding brief_server send_set_pixel_format send_set_encodings
    send_non_incremental_framebuffer_update_request
brief_server-Idles = record {
  at = λ t h. elim (Bool-cases (other_format t.current.pixel_format t.pixel_format)) [
    | inl other ↦ rw other h
    | inr same ↦ rw same h
  ];
}

queue_changes-Idles : Idles queue_changes
unfolding queue_changes
queue_changes-Idles = record { at = λ t h. ground (arith, h) }

cancel-Idles : Idles cancel
cancel-Idles = record { at = λ t h. h }

connection_switched-Idles : Idles connection_switched
unfolding connection_switched
connection_switched-Idles = Leads-bind release_greeter _ release_greeter-Idles (λ _.
    Leads-bind replace_current _ replace_current-Idles (λ _.
      Leads-bind cancel _ cancel-Idles
        (λ _. Leads-bind brief_server _ brief_server-Idles (λ _. queue_changes-Idles))))

on_greeter-IsIdle :
    (f : GreeterConnection → GreeterConnection) (t : Tunnel) → IsIdle t → IsIdle (on_greeter f t)
on_greeter-IsIdle f t h = go t.greeter
  where
    go :
        (g : Option GreeterConnection)
        → IsIdle (elim g [ none ↦ t | some g' ↦ record t { greeter = some (f g') } ])
    go none = h
    go (some g) = h

pub on_greeter-Idles : (f : GreeterConnection → GreeterConnection) → Idles (modify (on_greeter f))
on_greeter-Idles f = Leads-modify (on_greeter f) (on_greeter-IsIdle f)

proceed-Idles : (p : Progress) → Idles (proceed p)
unfolding proceed
proceed-Idles initialized = connection_switched-Idles
proceed-Idles password_requested = on_greeter-Idles ask_for_password
proceed-Idles credentials_requested = on_greeter-Idles ask_for_credentials

enable_tight-Idles : Idles enable_tight
unfolding enable_tight
enable_tight-Idles = record { at = λ t h. ground (arith, h) }

switch_to-Idles :
    (i : Option ℕ) (opened : Option Peer) → IsFresh opened → Idles (switch_to_connection i opened)
unfolding switch_to_connection
switch_to-Idles i opened fresh = Leads-bind enable_tight _ enable_tight-Idles (λ _.
    Leads-bind delete_potential _ delete_potential-Idles (λ _.
      Leads-bind (new_potential i opened) _ (new_potential-Idles i opened fresh) (λ _.
        Leads-bind cancel _ cancel-Idles (λ _.
          Leads-bind (gets (λ t. t.greeter)) _ (Keeps-gets _) (λ g.
            Leads-bind (check (has_greeter g) assertion) _ (checks _ _) (λ _.
              Leads-bind (on_potential initialize) proceed
                (on_potential-Idles initialize initialize-Quiets) proceed-Idles))))))

open_session-Idles :
    (i : Option ℕ) (opened : Option Peer) → IsFresh opened → Idles (open_session_handler i opened)
unfolding open_session_handler
open_session-Idles none opened fresh = switch_to-Idles none opened fresh
open_session-Idles (some i) opened fresh =
    Leads-bind (gets (λ t. get_session i t.manager)) _ (Keeps-gets _)
      (λ found. switch_to-Idles found opened fresh)

on_manager-Idles : {A : Type 0} (m : Action XvncManager A) → Idles (on_manager m)
on_manager-Idles {A} m = record { at = λ t h. go t h (m t.manager) }
  where
    go :
        (t : Tunnel)
        → IsIdle t
        → (r : Result XvncManager A)
        → Post
            (λ _ u. IsIdle u)
            IsSpared
            (elim r [
              | ok a s ↦ ok a (record t { manager = s })
              | err e s ↦ err e (record t { manager = s })
            ])
    go t h (ok a s) = h
    go t h (err e s) = λ k. h

new_session-Idles :
    (spawn : Spawn) (opened : Option Peer)
    → IsFresh opened
    → Idles (new_session_handler spawn opened)
unfolding new_session_handler
new_session-Idles spawn opened fresh =
    Leads-bind (on_manager (create_session spawn)) _ (on_manager-Idles (create_session spawn))
      (λ i. switch_to-Idles (some i) opened fresh)

module _ (encrypt : Cipher) (spawn : Spawn) (opened : Option Peer) (fresh : IsFresh opened) where
  pub greeter_command-Idles : (c : Command) → Idles (greeter_command encrypt spawn opened c)
  unfolding greeter_command
  greeter_command-Idles new_session = new_session-Idles spawn opened fresh
  greeter_command-Idles (open_session i) = open_session-Idles i opened fresh
  greeter_command-Idles (password_given password) =
      Leads-bind (gets (λ t. t.greeter)) _ (Keeps-gets _) (λ g.
        Leads-bind (check (has_password_handler g) bad_function_call) _ (checks _ _) (λ _.
          Leads-bind (on_potential (handle_vnc_auth_security_with_password encrypt password))
            proceed (on_potential-Idles _ (password-Quiets encrypt password)) proceed-Idles))
  greeter_command-Idles (credentials_given username password) =
      Leads-bind (gets (λ t. t.greeter)) _ (Keeps-gets _) (λ g.
        Leads-bind (check (has_credentials_handler g) bad_function_call) _ (checks _ _) (λ _.
          Leads-bind (on_potential (handle_vencrypt_security_with_credentials username password))
            proceed (on_potential-Idles _ (credentials-Quiets username password)) proceed-Idles))
  greeter_command-Idles no_command = Keeps-pure tt
