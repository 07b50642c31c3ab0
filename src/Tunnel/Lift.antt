-- ===== src/Tunnel/Lift.antt =====
-- The tunnel's streams as actions: what an outcome on a stream is for the tunnel.
use vncmanager.Base.{◌≡◌, ap, Action, ok, err}
use vncmanager.Formatter.{Peer, Transfer}
use vncmanager.Tunnel.State.{Tunnel, on_client, on_server, to_server, to_client}

module _ {A : Type 0} (t : Tunnel) {a : A} where
  pub on_client_ok :
      (m : Action Peer A) {p : Peer}
      → m t.client ≡ ok a p
      → on_client m t ≡ ok a (record t { client = p })
  on_client_ok m e =
      ap
        (λ r. elim r [
          | ok b q ↦ ok b (record t { client = q })
          | err x q ↦ err x (record t { client = q })
        ])
        e

  pub on_server_ok :
      (m : Action Peer A) {p : Peer}
      → m t.current.peer ≡ ok a p
      → on_server m t ≡ ok a (record t { current = record t.current { peer = p } })
  on_server_ok m e =
      ap
        (λ r. elim r [
          | ok b q ↦ ok b (record t { current = record t.current { peer = q } })
          | err x q ↦ err x (record t { current = record t.current { peer = q } })
        ])
        e

  pub to_server_ok :
      (m : Action Transfer A) {f : Transfer}
      → m (record { from = t.client; to = t.current.peer }) ≡ ok a f
      → to_server m t
        ≡ ok a (record t { client = f.from; current = record t.current { peer = f.to } })
  to_server_ok m e =
      ap
        (λ r. elim r [
          | ok b g ↦ ok b (record t { client = g.from; current = record t.current { peer = g.to } })
          | err x g ↦
              err x (record t { client = g.from; current = record t.current { peer = g.to } })
        ])
        e

  pub to_client_ok :
      (m : Action Transfer A) {f : Transfer}
      → m (record { from = t.current.peer; to = t.client }) ≡ ok a f
      → to_client m t
        ≡ ok a (record t { client = f.to; current = record t.current { peer = f.from } })
  to_client_ok m e =
      ap
        (λ r. elim r [
          | ok b g ↦ ok b (record t { client = g.to; current = record t.current { peer = g.from } })
          | err x g ↦
              err x (record t { client = g.to; current = record t.current { peer = g.from } })
        ])
        e
