-- ===== src/Tunnel/Idle/Select.antt =====
-- One `VncTunnel::select` leaves the push-back buffers empty.
use vncmanager.Base.{
  ℕ, Bool, true, false, [], ◌∷◌, ltb, Option, none, some, Result, Action, ok, err, Post, Bool-cases,
  inl, inr,
}
use vncmanager.Connection.Initialize.{Cipher}
use vncmanager.Greeter.Connection.{GreeterConnection, update}
use vncmanager.ReadSelector.{Handlers, has_fd, insert_fd, add_fd, dispatch, select}
use vncmanager.Tunnel.State.{Tunnel}
use vncmanager.Tunnel.FromClient.{client_receive}
use vncmanager.Tunnel.FromServer.{server_receive}
use vncmanager.Tunnel.Switch.{greeter_command}
use vncmanager.Tunnel.Run.{
  Round, or_assert, update_greeter, has_greeter, greeter_handlers, tunnel_select,
}
use vncmanager.Tunnel.Idle.{IsIdle, IsSpared}
use vncmanager.Tunnel.Idle.FromClient.{client_receive-Keeps}
use vncmanager.Tunnel.Idle.FromServer.{server_receive-Keeps}
use vncmanager.Tunnel.Idle.Switch.{IsFresh, greeter_command-Idles}
use vncmanager.Tunnel.Idle.Tight.{Idles}

abbrev AllIdle : Handlers Tunnel → Type 0
AllIdle [] = Unit
AllIdle ((fd, h) ∷ rest) = Idles h × AllIdle rest

abbrev AllAdded : Option (Handlers Tunnel) → Type 0
AllAdded none = Unit
AllAdded (some hs) = AllIdle hs

module _ (fd : ℕ) (h : Action Tunnel (Unit {0})) (idles : Idles h) where
  insert_fd-AllIdle : (hs : Handlers Tunnel) → AllIdle hs → AllIdle (insert_fd fd h hs)
  insert_fd-AllIdle [] a = (idles, tt)
  insert_fd-AllIdle ((k, g) ∷ rest) a = elim (Bool-cases (ltb fd k)) [
    | inl below ↦ rw below (idles, a)
    | inr above ↦ rw above (a.0, insert_fd-AllIdle rest a.1)
  ]

  add_fd-AllAdded : (hs : Handlers Tunnel) → AllIdle hs → AllAdded (add_fd fd h hs)
  unfolding add_fd
  add_fd-AllAdded hs a = elim (Bool-cases (has_fd fd hs)) [
    | inl there ↦ rw there tt
    | inr free ↦ rw free (insert_fd-AllIdle hs a)
  ]

or_assert-Idles :
    (o : Option (Handlers Tunnel)) (k : Handlers Tunnel → Action Tunnel (Unit {0}))
    → AllAdded o
    → ((hs : Handlers Tunnel) → AllIdle hs → Idles (k hs))
    → Idles (or_assert o k)
or_assert-Idles none k a f = record { at = λ t h e. h }
or_assert-Idles (some hs) k a f = f hs a

module _ (ready : ℕ → Bool) (cancelled : Tunnel → Bool) where
  -- After a handler: the next ones run unless it cancelled or threw.
  next_handlers :
      (rest : Handlers Tunnel)
      → Idles (dispatch ready cancelled rest)
      → (r : Result Tunnel (Unit {0})) → Post (λ _ u. IsIdle u) IsSpared r
      → Post
          (λ _ u. IsIdle u)
          IsSpared
          (elim r [
            | ok u s ↦ elim (cancelled s) [
              | true ↦ ok tt s
              | false ↦ dispatch ready cancelled rest s
            ]
            | err e s ↦ err e s
          ])
  next_handlers rest more (err e s) h = h
  next_handlers rest more (ok u s) h = go (cancelled s)
    where
      go :
          (b : Bool)
          → Post
              (λ _ u. IsIdle u)
              IsSpared
              (elim b [ true ↦ ok tt s | false ↦ dispatch ready cancelled rest s ])
      go true = h
      go false = more.at s h

  one_handler :
      (g : Action Tunnel (Unit {0})) (rest : Handlers Tunnel)
      → Idles g
      → Idles (dispatch ready cancelled rest)
      → (b : Bool) → (s : Tunnel) → IsIdle s
      → Post
          (λ _ u. IsIdle u)
          IsSpared
          (elim b [
            | true ↦ elim (g s) [
              | ok u s' ↦ elim (cancelled s') [
                | true ↦ ok tt s'
                | false ↦ dispatch ready cancelled rest s'
              ]
              | err e s' ↦ err e s'
            ]
            | false ↦ dispatch ready cancelled rest s
          ])
  one_handler g rest idles more true s h = next_handlers rest more (g s) (idles.at s h)
  one_handler g rest idles more false s h = more.at s h

  dispatch-Idles : (hs : Handlers Tunnel) → AllIdle hs → Idles (dispatch ready cancelled hs)
  unfolding dispatch
  dispatch-Idles [] a = record { at = λ s h. h }
  dispatch-Idles ((fd, g) ∷ rest) a = record {
    at = λ s h. one_handler g rest a.0 (dispatch-Idles rest a.1) (ready fd) s h;
  }

  select-Idles :
      (uncancel : Tunnel → Tunnel) (failed : Bool) (hs : Handlers Tunnel)
      → ((t : Tunnel) → IsIdle t → IsIdle (uncancel t))
      → AllIdle hs
      → Idles (select ready cancelled uncancel failed hs)
  unfolding select
  select-Idles uncancel true hs keep a = record { at = λ s h k. keep s h }
  select-Idles uncancel false hs keep a = record {
    at = λ s h. (dispatch-Idles hs a).at (uncancel s) (keep s h);
  }

pub update_greeter-Idles : Idles update_greeter
unfolding update_greeter
update_greeter-Idles = record { at = λ t h. go t h t.greeter }
  where
    go2 :
        (t : Tunnel)
        → IsIdle t
        → (r : Result GreeterConnection (Unit {0}))
        → Post
            (λ _ u. IsIdle u)
            IsSpared
            (elim r [
              | ok u g' ↦ ok tt (record t { greeter = some g' })
              | err e g' ↦ err e (record t { greeter = some g' })
            ])
    go2 t h (ok u g) = h
    go2 t h (err e g) = λ k. h

    go :
        (t : Tunnel)
        → IsIdle t
        → (o : Option GreeterConnection)
        → Post
            (λ _ u. IsIdle u)
            IsSpared
            (elim o [
              | none ↦ ok tt t
              | some g ↦ elim (update t.manager g) [
                | ok u g' ↦ ok tt (record t { greeter = some g' })
                | err e g' ↦ err e (record t { greeter = some g' })
              ]
            ])
    go t h none = h
    go t h (some g) = go2 t h (update t.manager g)

module _ (encrypt : Cipher) where
  greeter_handlers-AllAdded :
      (r : Round) (b : Bool) (hs : Handlers Tunnel)
      → IsFresh r.opened
      → AllIdle hs
      → AllAdded (greeter_handlers encrypt r b hs)
  greeter_handlers-AllAdded r false hs fresh a = a
  greeter_handlers-AllAdded r true hs fresh a =
      add_fd-AllAdded r.greeter_fd (greeter_command encrypt r.spawn r.opened r.command)
        (greeter_command-Idles encrypt r.spawn r.opened fresh r.command) hs a

  pub tunnel_select-Idles : (r : Round) → IsFresh r.opened → Idles (tunnel_select encrypt r)
  unfolding tunnel_select
  tunnel_select-Idles r fresh = record {
    at = λ t h.
        (or_assert-Idles (add_fd r.client_fd client_receive []) _
            (add_fd-AllAdded r.client_fd client_receive client_receive-Keeps [] tt)
            (λ hs a.
              or_assert-Idles (add_fd r.server_fd server_receive hs) _
                (add_fd-AllAdded r.server_fd server_receive server_receive-Keeps hs a)
                (λ hs' a'.
                  or_assert-Idles (greeter_handlers encrypt r (has_greeter t.greeter) hs') _
                    (greeter_handlers-AllAdded r (has_greeter t.greeter) hs' fresh a')
                    (λ hs'' a''.
                      select-Idles r.ready (λ s. s.pending_cancelation)
                        (λ s. record s { pending_cancelation = false }) r.select_failed hs''
                        (λ s i. i) a'')))).at
          t h;
  }
