-- ===== src/Tunnel/Idle/Ends.antt =====
-- The loop of `VncTunnel::start` ends when the client or its server closes.
use vncmanager.Base.{
  ℕ, ◌≡◌, ◌≢◌, refl, sym, ◌∙◌, ap, arith, Bool, true, false, List, [], ◌∷◌, ltb, ◌==◌, Option, none,
  some, ok, err, Error, eof, ◌>>◌, Bool-cases, inl, inr, bind_ok, bind_err, pure, ==_refl,
}
use vncmanager.Formatter.{Peer, recv, recv_raw, push_back}
use vncmanager.Formatter.Laws.{drained, recv_raw_short}
use vncmanager.Rfb.Wire.{u8, decode}
use vncmanager.Sessions.Manager.{XvncManager}
use vncmanager.Connection.Initialize.{Cipher}
use vncmanager.Greeter.Connection.{GreeterConnection, send_sessions, update}
use vncmanager.ReadSelector.{Handlers, insert_fd, add_fd, dispatch, select}
use vncmanager.ReadSelector.Order.{dispatch-idle, dispatch_throws, second_throws}
use vncmanager.Tunnel.State.{Tunnel, on_client, on_server}
use vncmanager.Tunnel.FromClient.{client_receive, client_dispatch}
use vncmanager.Tunnel.FromServer.{server_receive, server_dispatch}
use vncmanager.Tunnel.Switch.{greeter_command}
use vncmanager.Tunnel.Run.{
  Round, update_greeter, has_greeter, greeter_handlers, tunnel_select, round, breaks, handle,
  guarded_round, serve,
}
use vncmanager.Tunnel.Idle.{IsIdle}

-- The kernel gives the three streams descriptors of their own.
pub record AreDistinct (r : Round) : Type 0 where
  pub client_server : r.client_fd ≢ r.server_fd
  pub client_greeter : r.client_fd ≢ r.greeter_fd
  pub server_greeter : r.server_fd ≢ r.greeter_fd

other_fd : (a b : ℕ) → a ≢ b → (a == b) ≡ false
other_fd a b h = ground arith

recv_ended : (p : Peer) → p.pushed ≡ [] → p.input ≡ [] → recv u8 p ≡ err eof (drained p)
unfolding recv
recv_ended p c e =
    bind_err (recv_raw u8.size) (λ bs. pure (decode u8 bs)) p
      (recv_raw_short 1 p (ground arith) (ground arith))

client_ended :
    (t : Tunnel)
    → IsIdle t
    → t.client.input ≡ []
    → client_receive t ≡ err eof (record t { client = drained t.client })
unfolding client_receive
client_ended t (c, s, p) e =
    bind_err (on_client (recv u8)) (λ type. on_client (push_back u8 type) >> client_dispatch type) t
      (ap
        (λ x. elim x [
          | ok a q ↦ ok a (record t { client = q })
          | err y q ↦ err y (record t { client = q })
        ])
        (recv_ended t.client c e))

server_ended :
    (t : Tunnel)
    → IsIdle t
    → t.current.peer.input ≡ []
    → server_receive t
      ≡ err eof (record t { current = record t.current { peer = drained t.current.peer } })
unfolding server_receive
server_ended t (c, s, p) e =
    bind_err (on_server (recv u8)) (λ type. on_server (push_back u8 type) >> server_dispatch type) t
      (ap
        (λ x. elim x [
          | ok a q ↦ ok a (record t { current = record t.current { peer = q } })
          | err y q ↦ err y (record t { current = record t.current { peer = q } })
        ])
        (recv_ended t.current.peer s e))

-- The handlers that a tunnel's select has, in the order in which they are added.
abbrev handlers : Cipher → Round → Bool → Handlers Tunnel
handlers encrypt r false =
    insert_fd r.server_fd server_receive (insert_fd r.client_fd client_receive [])
handlers encrypt r true =
    insert_fd r.greeter_fd (greeter_command encrypt r.spawn r.opened r.command)
      (insert_fd r.server_fd server_receive (insert_fd r.client_fd client_receive []))

module _ (encrypt : Cipher) (r : Round) (distinct : AreDistinct r) where
  -- Each descriptor is added once.
  added_server :
      add_fd r.server_fd server_receive ((r.client_fd, client_receive) ∷ [])
      ≡ some (insert_fd r.server_fd server_receive ((r.client_fd, client_receive) ∷ []))
  unfolding add_fd
  added_server = rw (other_fd r.client_fd r.server_fd distinct.client_server) refl

  added_greeter :
      (b : Bool)
      → greeter_handlers encrypt r b
          (insert_fd r.server_fd server_receive ((r.client_fd, client_receive) ∷ []))
        ≡ some (handlers encrypt r b)
  unfolding add_fd
  added_greeter false = refl
  added_greeter true = elim (Bool-cases (ltb r.server_fd r.client_fd)) [
    | inl below ↦ rw (below, server, client) refl
    | inr above ↦ rw (above, client, server) refl
  ]
    where
      client : (r.client_fd == r.greeter_fd) ≡ false
      client = other_fd r.client_fd r.greeter_fd distinct.client_greeter

      server : (r.server_fd == r.greeter_fd) ≡ false
      server = other_fd r.server_fd r.greeter_fd distinct.server_greeter

  tunnel_select_lem :
      (t : Tunnel)
      → r.select_failed ≡ false
      → tunnel_select encrypt r t
        ≡ dispatch r.ready
            (λ s. s.pending_cancelation)
            (handlers encrypt r (has_greeter t.greeter))
            (record t { pending_cancelation = false })
  unfolding tunnel_select add_fd select
  tunnel_select_lem t sound = rw (added_server, added_greeter (has_greeter t.greeter), sound) refl

  -- A handler of the greeter that is not ready is passed over.
  without_greeter :
      (b : Bool) (t : Tunnel)
      → r.ready r.greeter_fd ≡ false
      → dispatch r.ready (λ s. s.pending_cancelation) (handlers encrypt r b) t
        ≡ dispatch r.ready (λ s. s.pending_cancelation) (handlers encrypt r false) t
  without_greeter false t idle = refl
  without_greeter true t idle =
      dispatch-idle r.ready (λ s. s.pending_cancelation) r.greeter_fd
        (greeter_command encrypt r.spawn r.opened r.command) (handlers encrypt r false) t idle

  client_select :
      (t : Tunnel)
      → r.select_failed ≡ false
      → IsIdle t
      → t.client.input ≡ []
      → ((k : ℕ) → r.ready k ≡ (k == r.client_fd))
      → tunnel_select encrypt r t
        ≡ err eof (record t { client = drained t.client; pending_cancelation = false })
  client_select t sound h e ready =
      tunnel_select_lem t sound
      ∙ without_greeter (has_greeter t.greeter) t' (
          ready r.greeter_fd
          ∙ other_fd r.greeter_fd r.client_fd (λ q. distinct.client_greeter (sym q)))
      ∙ dispatch-idle r.ready (λ s. s.pending_cancelation) r.server_fd server_receive
          ((r.client_fd, client_receive) ∷ []) t'
          (ready r.server_fd
            ∙ other_fd r.server_fd r.client_fd (λ q. distinct.client_server (sym q)))
      ∙ dispatch_throws r.ready (λ s. s.pending_cancelation) r.client_fd client_receive [] t' _ eof
          (ready r.client_fd ∙ ==_refl r.client_fd) (client_ended t' h e)
    where
      t' : Tunnel
      t' = record t { pending_cancelation = false }

  server_select :
      (t : Tunnel)
      → r.select_failed ≡ false
      → IsIdle t
      → t.current.peer.input ≡ []
      → ((k : ℕ) → r.ready k ≡ (k == r.server_fd))
      → tunnel_select encrypt r t
        ≡ err eof (record t {
          current = record t.current { peer = drained t.current.peer };
          pending_cancelation = false;
        })
  server_select t sound h e ready =
      tunnel_select_lem t sound
      ∙ without_greeter (has_greeter t.greeter) t' (
          ready r.greeter_fd
          ∙ other_fd r.greeter_fd r.server_fd (λ q. distinct.server_greeter (sym q)))
      ∙ second_throws r.ready (λ s. s.pending_cancelation) r.server_fd r.client_fd server_receive
          client_receive t' _ eof (ready r.server_fd ∙ ==_refl r.server_fd)
          (ready r.client_fd ∙ other_fd r.client_fd r.server_fd distinct.client_server)
          (server_ended t' h e)
    where
      t' : Tunnel
      t' = record t { pending_cancelation = false }

-- The greeter that there may be has not died.
abbrev pub Lives : Option GreeterConnection → Type 0
Lives none = Unit
Lives (some g) = g.dead ≡ false

update_lem :
    (m : XvncManager) (g : GreeterConnection)
    → g.dead ≡ false
    → (g' : GreeterConnection) × (update m g ≡ ok tt g')
unfolding update
update_lem m g h = elim (Bool-cases (ltb g.last_sent_session_list_version m.session_list_version)) [
  | inl older ↦ (
    send_sessions m (record g { last_sent_session_list_version = m.session_list_version }),
    rw (h, older) refl,
  )
  | inr current ↦ (g, rw (h, current) refl)
]

-- The greeter's update touches no stream.
abbrev SameStreams : Tunnel → Tunnel → Type 0
SameStreams t u = (u.client ≡ t.client) × (u.current ≡ t.current) × (u.potential ≡ t.potential)

updated :
    (t : Tunnel) (o : Option GreeterConnection)
    → Lives o
    → (u : Tunnel) × ((elim o [
      | none ↦ ok tt t
      | some g ↦ elim (update t.manager g) [
        | ok x g' ↦ ok tt (record t { greeter = some g' })
        | err e g' ↦ err e (record t { greeter = some g' })
      ]
    ])
        ≡ ok tt u)
      × SameStreams t u
updated t none h = (t, refl, (refl, refl, refl))
updated t (some g) h =
    let (g', e) = update_lem t.manager g h in
    (
      record t { greeter = some g' },
      ap
          (λ r. elim r [
            | ok x k ↦ ok tt (record t { greeter = some k })
            | err y k ↦ err y (record t { greeter = some k })
          ])
          e,
      (refl, refl, refl),
    )

update_greeter_lem :
    (t : Tunnel) → Lives t.greeter → (u : Tunnel) × (update_greeter t ≡ ok tt u) × SameStreams t u
unfolding update_greeter
update_greeter_lem t h = updated t t.greeter h

-- Nothing more comes from the client, or nothing from its server, and `select` says so.
pub data HasEnded (r : Round) (t : Tunnel) : Type 0 where
  client_closed : t.client.input ≡ [] → ((k : ℕ) → r.ready k ≡ (k == r.client_fd)) → HasEnded r t
  server_closed :
      t.current.peer.input ≡ [] → ((k : ℕ) → r.ready k ≡ (k == r.server_fd)) → HasEnded r t

still_ended :
    (r : Round) (t u : Tunnel)
    → u.client ≡ t.client
    → u.current ≡ t.current
    → HasEnded r t
    → HasEnded r u
still_ended r t u c s (client_closed e ready) = client_closed (ap (λ q. q.input) c ∙ e) ready
still_ended r t u c s (server_closed e ready) = server_closed (ap (λ q. q.peer.input) s ∙ e) ready

module _ (encrypt : Cipher) (what : Error → List ℕ) where
  select_ended :
      (r : Round) (t : Tunnel)
      → AreDistinct r
      → r.select_failed ≡ false
      → IsIdle t
      → HasEnded r t
      → (u : Tunnel) × (tunnel_select encrypt r t ≡ err eof u)
  select_ended r t d sound h (client_closed e ready) =
      (_, client_select encrypt r d t sound h e ready)
  select_ended r t d sound h (server_closed e ready) =
      (_, server_select encrypt r d t sound h e ready)

  -- When no byte waits in a push-back buffer, the client or its current server has closed and
  -- `select` reports that stream alone, the loop is left in this round, whatever would come later;
  -- the descriptors are distinct, `select` does not fail and the greeter, if there is one, lives.
  pub serve-breaks :
      (r : Round) (rounds : List Round) (t : Tunnel)
      → AreDistinct r
      → r.select_failed ≡ false
      → IsIdle t
      → Lives t.greeter
      → HasEnded r t
      → (u : Tunnel) × (serve encrypt what (r ∷ rounds) t ≡ ok breaks u)
  unfolding serve guarded_round round handle
  serve-breaks r rounds t d sound h lives ended =
      let (u, e, (c, s, p)) = update_greeter_lem t lives in
      let (v, e') = select_ended r u d sound (rw (c, s, p) h) (still_ended r t u c s ended) in
      (
        v,
        rw (bind_ok update_greeter (λ _. tunnel_select encrypt r) t e ∙ e', serve, guarded_round)
            refl,
      )
