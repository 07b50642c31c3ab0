-- ===== src/Tunnel/Rectangles/Written.antt =====
-- What a rectangle of the server writes to the client.
use vncmanager.Base.{
  ℕ, ◌≡◌, ◌≢◌, sym, ap, ◌∙◌, arith, Bool, List, [], ◌++◌, append-nil, Result, Action, ok, err,
  check, pure, overflow, Grants, Yields, Yields-bind, Yields-pure, Leads-bind, Keeps-check, Post,
  ◌>>=◌,
}
use vncmanager.Rfb.Values.EncodingType
use vncmanager.Rfb.Wire.{Wire, encode}
use vncmanager.Rfb.Messages.Server.{FramebufferUpdateRectangle, framebuffer_update_rectangle}
use vncmanager.Formatter.{Peer, Transfer, send, send_raw, recv, forward, forward_directly}
use vncmanager.Formatter.Output.{Extends, appended, GrowsTo, forward-Grows, forward_directly-Grows}
use vncmanager.Connection.State.{set_framebuffer_size, set_desktop_name}
use vncmanager.Tunnel.State.{Tunnel, on_client, on_server, to_client}
use vncmanager.Tunnel.Tight.{reset_streams}
use vncmanager.Tunnel.Tight.Steps.{Steps}
use vncmanager.Tunnel.Rectangles.{Fate, resize, passed, skipped, last, rename}

-- The output to the client is `o`; it begins with `o`.
abbrev pub Has : List ℕ → Tunnel → Type 0
Has o t = t.client.output ≡ o

abbrev pub Grown : List ℕ → Tunnel → Type 0
Grown o t = Extends o t.client.output

abbrev pub headed : List ℕ → FramebufferUpdateRectangle → List ℕ
headed o r = o ++ encode framebuffer_update_rectangle r

-- A rectangle that is not LastRect was written: its header, and what follows it.
abbrev pub HasRectangle : List ℕ → Tunnel → Type 0
HasRectangle o t =
    (r : FramebufferUpdateRectangle) × (r.encoding_type ≢ EncodingType.last_rect)
    × Grown (headed o r) t

abbrev pub HasLast : List ℕ → Tunnel → Type 0
HasLast o t =
    (r : FramebufferUpdateRectangle) × (r.encoding_type ≡ EncodingType.last_rect)
    × Has (headed o r) t

-- What each fate says of the output, which was `o`.
abbrev pub Became : List ℕ → Fate → Tunnel → Type 0
Became o passed t = HasRectangle o t
Became o skipped t = Has o t
Became o last t = HasLast o t

-- Steps that do not write.
module _ (P : List ℕ → Type 0) where
  pub on_server-Silent :
      {A : Type 0} (m : Action Peer A)
      → Grants (λ t. P t.client.output) (λ t. P t.client.output) (on_server m)
  on_server-Silent {A} m = record { at = λ t h. go t h (m t.current.peer) }
    where
      go :
          (t : Tunnel)
          → P t.client.output
          → (r : Result Peer A)
          → Post
              (λ _ u. P u.client.output)
              (λ _ _. Unit)
              (elim r [
                | ok a p ↦ ok a (record t { current = record t.current { peer = p } })
                | err e p ↦ err e (record t { current = record t.current { peer = p } })
              ])
      go t h (ok a p) = h
      go t h (err e p) = tt

  pub checks-Silent :
      (b : Bool)
      → Grants (λ (t : Tunnel). P t.client.output) (λ t. P t.client.output) (check b overflow)
  checks-Silent b = Keeps-check b overflow (λ t h. tt)

  pub resize-Silent :
      (r : FramebufferUpdateRectangle)
      → Grants (λ t. P t.client.output) (λ t. P t.client.output) (resize r)
  unfolding resize set_framebuffer_size
  resize-Silent r = record { at = λ t h. h }

  pub rename-Silent :
      (name : List ℕ) → Grants (λ t. P t.client.output) (λ t. P t.client.output) (rename name)
  unfolding rename set_desktop_name
  rename-Silent name = record { at = λ t h. h }

module _ (o : List ℕ) where
  abbrev pub Appends : {A : Type 0} → Action Tunnel A → Type 0
  Appends m = Grants (Grown o) (Grown o) m

  pub raw-Appends : (bs : List ℕ) → Appends (on_client (send_raw bs))
  unfolding send_raw
  raw-Appends bs = record { at = λ t h. appended o t.client.output bs h }

  pub send-Appends : {T : Type 0} (w : Wire T) (v : T) → Appends (on_client (send w v))
  unfolding send
  send-Appends w v = record { at = λ t h. appended o t.client.output (encode w v) h }

  to_client-Appends : {A : Type 0} (m : Action Transfer A) → GrowsTo o m → Appends (to_client m)
  to_client-Appends {A} m k = record {
    at = λ t h. go t (m _) (k.at (record { from = t.current.peer; to = t.client }) h);
  }
    where
      go :
          (t : Tunnel) (r : Result Transfer A)
          → Post (λ _ f. Extends o f.to.output) (λ _ _. Unit) r
          → Post
              (λ _ u. Grown o u)
              (λ _ _. Unit)
              (elim r [
                | ok a f ↦
                    ok a (record t { client = f.to; current = record t.current { peer = f.from } })
                | err e f ↦
                    err e (record t { client = f.to; current = record t.current { peer = f.from } })
              ])
      go t (ok a f) h = h
      go t (err e f) h = tt

  pub forwards : (n : ℕ) → Appends (to_client (forward_directly n))
  forwards n = to_client-Appends (forward_directly n) (forward_directly-Grows o n)

  pub forwards_value : {T : Type 0} (w : Wire T) → Appends (to_client (forward w))
  forwards_value w = to_client-Appends (forward w) (forward-Grows o w)

  pub Grown-steps : Steps (Grown o) (λ _ _. Unit)
  Grown-steps = record {
    forwards = forwards;
    forwards_value = forwards_value;
    reads = λ w. on_server-Silent (Extends o) (recv w);
    sends = send-Appends;
    checks = checks-Silent (Extends o);
    resets = λ c. record { at = λ t h. unfold reset_streams in ground (arith, h) };
  }

  -- The header, from where nothing of the rectangle was written.
  pub header-Grants :
      (r : FramebufferUpdateRectangle)
      → Grants (Has o) (Has (headed o r)) (on_client (send framebuffer_update_rectangle r))
  unfolding send
  header-Grants r = record { at = λ t h. ap (λ k. k ++ encode framebuffer_update_rectangle r) h }

  pub begun : (t : Tunnel) → Has o t → Grown o t
  begun t h = ([], h ∙ sym (append-nil o))

-- The rest of a rectangle, once its header is written.
module _ (o : List ℕ) (r : FramebufferUpdateRectangle) where
  abbrev Follows : {A : Type 0} → Action Tunnel A → Type 0
  Follows m = Grants (Has (headed o r)) (Grown (headed o r)) m

  follows : {A : Type 0} (m : Action Tunnel A) → Appends (headed o r) m → Follows m
  follows m k = record { at = λ t h. k.at t (begun (headed o r) t h) }

  -- A block of the header and a rest.
  pub passes :
      (r.encoding_type ≢ EncodingType.last_rect)
      → Yields (Grown (headed o r)) (Became o) (pure passed)
  passes n = Yields-pure passed (λ t h. (r, n, h))

  pub with_header :
      (m : Action Tunnel Fate)
      → Yields (Grown (headed o r)) (Became o) m
      → Yields (Has o) (Became o) (on_client (send framebuffer_update_rectangle r) >>= λ _. m)
  with_header m k =
      Yields-bind (on_client (send framebuffer_update_rectangle r)) _ (header-Grants o r)
        (λ _. record { at = λ t h. k.at t (begun (headed o r) t h) })

  -- The same where no fate is returned.
  pub writes :
      {A : Type 0} (m : Tunnel → Result Tunnel A)
      → r.encoding_type ≢ EncodingType.last_rect
      → Appends (headed o r) m
      → Grants (Has o) (HasRectangle o) (on_client (send framebuffer_update_rectangle r) >>= λ _. m)
  writes m n k =
      Leads-bind (on_client (send framebuffer_update_rectangle r)) _ (header-Grants o r)
        (λ _. record { at = λ t h. found m n t ((follows m k).at t h) })
    where
      found :
          {A : Type 0} (m : Tunnel → Result Tunnel A)
          → r.encoding_type ≢ EncodingType.last_rect
          → (t : Tunnel) → Post (λ _ u. Grown (headed o r) u) (λ _ _. Unit) (m t)
          → Post (λ _ u. HasRectangle o u) (λ _ _. Unit) (m t)
      found m n t h = go (m t) h
        where
          go :
              {A : Type 0} (r' : Result Tunnel A)
              → Post (λ _ u. Grown (headed o r) u) (λ _ _. Unit) r'
              → Post (λ _ u. HasRectangle o u) (λ _ _. Unit) r'
          go (ok a u) h = (r, n, h)
          go (err e u) h = tt
