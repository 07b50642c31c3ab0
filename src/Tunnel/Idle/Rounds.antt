-- ===== src/Tunnel/Idle/Rounds.antt =====
-- Between two rounds of the loop of `VncTunnel::start` no byte waits in a push-back buffer.
use vncmanager.Base.{
  ℕ, ◌≡◌, arith, Bool, List, [], ◌∷◌, Option, none, some, Result, ok, err, modify, pure, Error,
  Post, Leads-modify, Leads-bind, Keeps-pure, Keeps-check, check, ◌>>◌, Bool-cases, inl, inr,
}
use vncmanager.Sessions.Manager.{XvncManager, Spawn}
use vncmanager.Connection.Initialize.{Cipher}
use vncmanager.Greeter.Connection.{show_error}
use vncmanager.Tunnel.State.{Tunnel}
use vncmanager.Formatter.{Peer}
use vncmanager.Tunnel.Switch.{delete_potential, on_greeter}
use vncmanager.Tunnel.Run.{
  is_connection_exception, is_eof, from_potential, Round, update_greeter, round, Next, goes_on,
  breaks, handle, guarded_round, serve, Options, begin_session, prepare,
}
use vncmanager.Tunnel.Idle.{IsIdle, IsSpared}
use vncmanager.Tunnel.Idle.Switch.{IsFresh, delete_potential-Idles, on_greeter-Idles}
use vncmanager.Tunnel.Idle.Tight.{Idles}
use vncmanager.Tunnel.Idle.Client.{prepare-Idles}
use vncmanager.Tunnel.Idle.Select.{tunnel_select-Idles, update_greeter-Idles}

-- The rounds' new connections are fresh.
abbrev pub AllFresh : List Round → Type 0
AllFresh [] = Unit
AllFresh (r ∷ rs) = IsFresh r.opened × AllFresh rs

module _ (encrypt : Cipher) where
  round-Idles : (r : Round) → IsFresh r.opened → Idles (round encrypt r)
  unfolding round
  round-Idles r fresh =
      Leads-bind update_greeter _ update_greeter-Idles (λ _. tunnel_select-Idles encrypt r fresh)

  -- What a round that the loop goes on after leaves.
  abbrev pub IdleOn : Next encrypt → Tunnel → Type 0
  IdleOn goes_on t = IsIdle t
  IdleOn breaks t = Unit

  module _ (what : Error → List ℕ) where
    -- The handler of a ConnectionException.
    shown :
        (e : Error)
        → Idles {A = Next encrypt} (do
          modify (on_greeter (show_error (what e)))
          check (from_potential e) e
          delete_potential
          modify (λ s. record s { potential = none })
          pure goes_on)
    shown e = Leads-bind (modify (on_greeter (show_error (what e)))) _ (on_greeter-Idles _) (λ _.
        Leads-bind (check (from_potential e) e) _ (Keeps-check _ e (λ t h k. h)) (λ _.
          Leads-bind delete_potential _ delete_potential-Idles (λ _.
            Leads-bind (modify (λ s. record s { potential = none })) _
              (Leads-modify (λ s. record s { potential = none }) (λ t (c, s, _). (c, s, tt)))
              (λ _. Keeps-pure goes_on))))

    weaken :
        (r : Result Tunnel (Next encrypt))
        → Post (λ _ u. IsIdle u) IsSpared r
        → Post IdleOn (λ _ _. Unit) r
    weaken (ok goes_on t) h = h
    weaken (ok breaks t) h = tt
    weaken (err e t) h = tt

    handle-IdleOn :
        (e : Error) (t : Tunnel)
        → IsSpared e t
        → Post IdleOn (λ _ _. Unit) (handle encrypt what e t)
    unfolding handle
    handle-IdleOn e t h = elim (Bool-cases (is_connection_exception e)) [
      | inl caught ↦ rw caught (weaken _ ((shown e).at t (h caught)))
      | inr other ↦ elim (Bool-cases (is_eof e)) [
        | inl ended ↦ rw (other, ended) tt
        | inr failed ↦ rw (other, failed) tt
      ]
    ]

    caught_round :
        (r : Result Tunnel (Unit {0}))
        → Post (λ _ u. IsIdle u) IsSpared r
        → Post IdleOn
            (λ _ _. Unit)
            (elim r [ ok u t ↦ ok goes_on t | err e t ↦ handle encrypt what e t ])
    caught_round (ok u t) h = h
    caught_round (err e t) h = handle-IdleOn e t h

    guarded_round-IdleOn :
        (r : Round) (t : Tunnel)
        → IsFresh r.opened
        → IsIdle t
        → Post IdleOn (λ _ _. Unit) (guarded_round encrypt what r t)
    unfolding guarded_round
    guarded_round-IdleOn r t fresh h =
        caught_round (round encrypt r t) ((round-Idles r fresh).at t h)

    later_rounds :
        (rs : List Round)
        → ((t : Tunnel) → IsIdle t → Post IdleOn (λ _ _. Unit) (serve encrypt what rs t))
        → (r : Result Tunnel (Next encrypt)) → Post IdleOn (λ _ _. Unit) r
        → Post IdleOn
            (λ _ _. Unit)
            (elim r [
              | ok next t' ↦ elim next [
                | goes_on ↦ serve encrypt what rs t'
                | breaks ↦ ok breaks t'
              ]
              | err e t' ↦ err e t'
            ])
    later_rounds rs more (ok goes_on t) h = more t h
    later_rounds rs more (ok breaks t) h = tt
    later_rounds rs more (err e t) h = tt

    pub serve-IdleOn :
        (rs : List Round) (t : Tunnel)
        → AllFresh rs
        → IsIdle t
        → Post IdleOn (λ _ _. Unit) (serve encrypt what rs t)
    unfolding serve
    serve-IdleOn [] t fresh h = h
    serve-IdleOn (r ∷ rs) t fresh h =
        later_rounds rs (λ u i. serve-IdleOn rs u fresh.1 i) (guarded_round encrypt what r t)
          (guarded_round-IdleOn r t fresh.0 h)

-- The members that the constructor sets, with two new streams.
begin_session-IsIdle :
    (o : Options) (handshake : Bool → Bool) (spawn : Spawn) (pid : Option ℕ) (client : Peer)
    (opened : Option Peer) (m m' : XvncManager) (t : Tunnel)
    → client.pushed ≡ []
    → IsFresh opened
    → begin_session o handshake spawn pid client opened m ≡ ok t m'
    → IsIdle t
unfolding begin_session
begin_session-IsIdle o handshake spawn pid client none m m' t c fresh h = ground (arith, h)
begin_session-IsIdle o handshake spawn pid client (some p) m m' t c fresh h = ground (arith, h)

-- At the beginning of each round of the loop no byte waits in a push-back buffer, of the client's
-- stream, of the current server's or of the potential one's, when each stream was opened with an
-- empty buffer.
pub serve-IsIdle :
    (o : Options) (handshake : Bool → Bool) (encrypt : Cipher) (what : Error → List ℕ)
    (spawn : Spawn) (pid : Option ℕ) (client : Peer) (opened : Option Peer) (m m' : XvncManager)
    (t t' t'' : Tunnel) (rounds : List Round)
    → client.pushed ≡ []
    → IsFresh opened
    → AllFresh rounds
    → begin_session o handshake spawn pid client opened m ≡ ok t m'
    → prepare o handshake t ≡ ok tt t'
    → serve encrypt what rounds t' ≡ ok goes_on t''
    → IsIdle t''
serve-IsIdle o handshake encrypt what spawn pid client opened m m' t t' t'' rounds c fresh later b p
      s =
    let begun = begin_session-IsIdle o handshake spawn pid client opened m m' t c fresh b in
    let prepared : IsIdle t' = rw p at ((prepare-Idles o handshake).at t begun) in
    rw s at (serve-IdleOn encrypt what rounds t' later prepared)
