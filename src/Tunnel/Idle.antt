-- ===== src/Tunnel/Idle.antt =====
-- The push-back buffers between two messages: what the tunnel's streams do to them.
pub mod FromClient
pub mod Tight
pub mod Rectangles
pub mod FromServer
pub mod Handshake
pub mod Switch
pub mod Client
pub mod Select
pub mod Ends
pub mod Rounds
use vncmanager.Base.{
  ℕ, zero, ◌≤◌, ◌≡◌, refl, ◌∙◌, arith, Bool, true, false, inl, inr, Option, none, some, length,
  List, Result, Action, ok, err, Error, Leads, Keeps, Post,
}
use vncmanager.Rfb.Wire.{Wire}
use vncmanager.Formatter.{Peer, Transfer, send, send_raw, send_vector}
use vncmanager.Formatter.Buffer.{IsClear, IsEnd, Clears, Hands}
use vncmanager.Connection.State.{Connection}
use vncmanager.Tunnel.State.{Tunnel, on_client, on_server, on_current, to_server, to_client}
use vncmanager.Tunnel.Run.{is_connection_exception}

abbrev pub AllClear : Option Connection → Type 0
AllClear none = Unit
AllClear (some c) = IsClear c.peer

-- No stream of the tunnel has a byte in its push-back buffer.
abbrev pub IsIdle : Tunnel → Type 0
IsIdle t = IsClear t.client × IsClear t.current.peer × AllClear t.potential

-- One byte of the client, or of the server, may be in the buffer.
abbrev pub HasClient : Tunnel → Type 0
HasClient t = (length t.client.pushed ≤ 1) × IsClear t.current.peer × AllClear t.potential

abbrev pub HasServer : Tunnel → Type 0
HasServer t = IsClear t.client × (length t.current.peer.pushed ≤ 1) × AllClear t.potential

-- The exceptions that the loop of `start` goes on after leave the buffers empty.
abbrev pub IsSpared : Error → Tunnel → Type 0
IsSpared e t = is_connection_exception e ≡ true → IsIdle t

-- The end of a stream is not among those.
pub not_caught : {X : Type 0} (e : Error) → IsEnd e → is_connection_exception e ≡ true → X
unfolding is_connection_exception
not_caught {X} e (inl h) k = absurd (ground arith)
not_caught {X} e (inr h) k = absurd (ground arith)

module _ {A : Type 0} (m : Action Peer A) where
  client_rest :
      (t : Tunnel)
      → IsClear t.current.peer
      → AllClear t.potential
      → (r : Result Peer A) → Post (λ _ q. IsClear q) (λ e _. IsEnd e) r
      → Post
          (λ _ u. IsIdle u)
          IsSpared
          (elim r [
            | ok a p ↦ ok a (record t { client = p })
            | err e p ↦ err e (record t { client = p })
          ])
  client_rest t s p (ok a q) h = (h, s, p)
  client_rest t s p (err e q) h = not_caught e h

  server_rest :
      (t : Tunnel)
      → IsClear t.client
      → AllClear t.potential
      → (r : Result Peer A) → Post (λ _ q. IsClear q) (λ e _. IsEnd e) r
      → Post
          (λ _ u. IsIdle u)
          IsSpared
          (elim r [
            | ok a p ↦ ok a (record t { current = record t.current { peer = p } })
            | err e p ↦ err e (record t { current = record t.current { peer = p } })
          ])
  server_rest t s p (ok a q) h = (s, h, p)
  server_rest t s p (err e q) h = not_caught e h

  pub on_client-Keeps : (n : ℕ) → Clears n m → Keeps IsIdle IsSpared (on_client m)
  on_client-Keeps n k = record {
    at = λ t (c, s, p). client_rest t s p (m t.client) (k t.client (ground arith) (ground arith));
  }

  -- The first read of a message takes the byte that was put back.
  pub on_client-Leads : (n : ℕ) → Clears n m → 1 ≤ n → Leads HasClient IsIdle IsSpared (on_client m)
  on_client-Leads n k large = record {
    at = λ t (c, s, p). client_rest t s p (m t.client) (k t.client c (omega arith));
  }

  pub on_server-Keeps : (n : ℕ) → Clears n m → Keeps IsIdle IsSpared (on_server m)
  on_server-Keeps n k = record {
    at = λ t (c, s, p).
        server_rest t c p (m t.current.peer) (k t.current.peer (ground arith) (ground arith));
  }

  pub on_server-Leads : (n : ℕ) → Clears n m → 1 ≤ n → Leads HasServer IsIdle IsSpared (on_server m)
  on_server-Leads n k large = record {
    at = λ t (c, s, p). server_rest t c p (m t.current.peer) (k t.current.peer s (omega arith));
  }

-- A forward, which reads from one peer and writes to the other.
module _ {A : Type 0} (m : Action Transfer A) where
  to_server_rest :
      (t : Tunnel)
      → IsClear t.current.peer
      → AllClear t.potential
      → (r : Result Transfer A)
      → Post (λ _ u. IsClear u.from × (u.to.pushed ≡ t.current.peer.pushed)) (λ e _. IsEnd e) r
      → Post
          (λ _ u. IsIdle u)
          IsSpared
          (elim r [
            | ok a f ↦
                ok a (record t { client = f.from; current = record t.current { peer = f.to } })
            | err e f ↦
                err e (record t { client = f.from; current = record t.current { peer = f.to } })
          ])
  to_server_rest t s p (ok a f) h = (h.0, h.1 ∙ s, p)
  to_server_rest t s p (err e f) h = not_caught e h

  to_client_rest :
      (t : Tunnel)
      → IsClear t.client
      → AllClear t.potential
      → (r : Result Transfer A)
      → Post (λ _ u. IsClear u.from × (u.to.pushed ≡ t.client.pushed)) (λ e _. IsEnd e) r
      → Post
          (λ _ u. IsIdle u)
          IsSpared
          (elim r [
            | ok a f ↦
                ok a (record t { client = f.to; current = record t.current { peer = f.from } })
            | err e f ↦
                err e (record t { client = f.to; current = record t.current { peer = f.from } })
          ])
  to_client_rest t c p (ok a f) h = (h.1 ∙ c, h.0, p)
  to_client_rest t c p (err e f) h = not_caught e h

  pub to_server-Keeps : (n : ℕ) → Hands n m → Keeps IsIdle IsSpared (to_server m)
  to_server-Keeps n k = record {
    at = λ t (c, s, p).
        to_server_rest t s p (m _)
          (k (record { from = t.client; to = t.current.peer }) (ground arith) (ground arith));
  }

  pub to_server-Leads : (n : ℕ) → Hands n m → 1 ≤ n → Leads HasClient IsIdle IsSpared (to_server m)
  to_server-Leads n k large = record {
    at = λ t (c, s, p).
        to_server_rest t s p (m _)
          (k (record { from = t.client; to = t.current.peer }) c (omega arith));
  }

  pub to_client-Keeps : (n : ℕ) → Hands n m → Keeps IsIdle IsSpared (to_client m)
  to_client-Keeps n k = record {
    at = λ t (c, s, p).
        to_client_rest t c p (m _)
          (k (record { from = t.current.peer; to = t.client }) (ground arith) (ground arith));
  }

  pub to_client-Leads : (n : ℕ) → Hands n m → 1 ≤ n → Leads HasServer IsIdle IsSpared (to_client m)
  to_client-Leads n k large = record {
    at = λ t (c, s, p).
        to_client_rest t c p (m _)
          (k (record { from = t.current.peer; to = t.client }) s (omega arith));
  }

-- What is sent leaves every buffer as it is.
pub send_raw-Keeps : (bs : List ℕ) → Keeps IsIdle IsSpared (on_client (send_raw bs))
unfolding send_raw
send_raw-Keeps bs = record { at = λ t h. h }

module _ {T : Type 0} (w : Wire T) where
  pub send-Keeps : (v : T) → Keeps IsIdle IsSpared (on_client (send w v))
  unfolding send
  send-Keeps v = record { at = λ t h. h }

  pub send_vector-Keeps : (vs : List T) → Keeps IsIdle IsSpared (on_client (send_vector w vs))
  unfolding send_vector
  send_vector-Keeps vs = record { at = λ t h. h }
