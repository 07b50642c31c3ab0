-- ===== src/Tunnel/Update/Rounds.antt =====
-- What the loop over an update's rectangles writes to the client.
use vncmanager.Base.{
  ℕ, zero, suc, ◌≤◌, ◌≡◌, ◌≢◌, refl, sym, ap, ◌∙◌, arith, Bool, true, false, List, ◌++◌,
  Result-cases, inl, inr, ok, err, Error, Yields, Yields-bind,
}
use mathlib.Core.Path.{subst}
use vncmanager.Rfb.Values.EncodingType
use vncmanager.Rfb.Messages.Server.{FramebufferUpdateRectangle, framebuffer_update_rectangle}
use vncmanager.Formatter.{recv}
use vncmanager.Tunnel.State.{Tunnel, on_server}
use vncmanager.Tunnel.Rectangles.{Fate, passed, skipped, last}
use vncmanager.Tunnel.Rectangles.Written.{
  Has, HasRectangle, HasLast, Became, headed, on_server-Silent,
}
use vncmanager.Tunnel.Rectangles.Fates.{process_rectangle-Fated}
use vncmanager.Tunnel.Update.{Flags, rectangle, rectangles}

-- An output that so many rectangles bring to another: of each the header, which is not that of
-- LastRect, and a body.
pub data Writes : ℕ → List ℕ → List ℕ → Type 0 where
  nothing : (o : List ℕ) → Writes zero o o
  writes :
      (r : FramebufferUpdateRectangle) (body : List ℕ) {k : ℕ} {o o' : List ℕ}
      → r.encoding_type ≢ EncodingType.last_rect
      → Writes k (headed o r ++ body) o'
      → Writes (suc k) o o'

pub one_more :
    (k : ℕ) (o o' : List ℕ) (t : Tunnel)
    → HasRectangle o t
    → Writes k t.client.output o'
    → Writes (suc k) o o'
one_more k o o' t (r, n, (body, e)) w = writes r body n (subst (λ l. Writes k l o') e w)

-- What the loop leaves: the rectangles that it wrote, and then a LastRect of the server or nothing.
-- Where none was left out and no LastRect came, these are all.
pub record Loop (n : ℕ) (must : Bool) (t : Tunnel) (flags : Flags) (u : Tunnel) : Type 0 where
  pub number : ℕ
  pub middle : List ℕ
  pub written : Writes number t.client.output middle
  pub at_most : number ≤ n
  pub closed : flags.last_rect_received ≡ true → HasLast middle u
  pub open_end : flags.last_rect_received ≡ false → Has middle u
  pub all : flags.must_use_last_rect ≡ false → flags.last_rect_received ≡ false → (number ≡ n)
  pub demanded : flags.must_use_last_rect ≡ false → must ≡ false

round_passed :
    (n : ℕ) (must : Bool) (t u : Tunnel)
    → rectangle t ≡ ok passed u
    → rectangles (suc n) must t ≡ rectangles n must u
unfolding rectangles
round_passed n must t u e = rw (e, rectangles)

round_skipped :
    (n : ℕ) (must : Bool) (t u : Tunnel)
    → rectangle t ≡ ok skipped u
    → rectangles (suc n) must t ≡ rectangles n true u
unfolding rectangles
round_skipped n must t u e = rw (e, rectangles)

round_last :
    (n : ℕ) (must : Bool) (t u : Tunnel)
    → rectangle t ≡ ok last u
    → rectangles (suc n) must t
      ≡ ok (record { must_use_last_rect = must; last_rect_received = true }) u
unfolding rectangles
round_last n must t u e = rw (e, rectangles)

round_error :
    (n : ℕ) (must : Bool) (t u : Tunnel) (x : Error)
    → rectangle t ≡ err x u
    → rectangles (suc n) must t ≡ err x u
unfolding rectangles
round_error n must t u x e = rw (e, rectangles)

ok-value : {A : Type 0} {a b : A} {s t : Tunnel} → ok a s ≡ ok b t → a ≡ b
ok-value e = cc

ok-state : {A : Type 0} {a b : A} {s t : Tunnel} → ok a s ≡ ok b t → s ≡ t
ok-state e = cc

rectangle-Fated : (o : List ℕ) → Yields (Has o) (Became o) rectangle
unfolding rectangle
rectangle-Fated o =
    Yields-bind (on_server (recv framebuffer_update_rectangle)) _
      (on_server-Silent (λ l. l ≡ o) (recv framebuffer_update_rectangle))
      (λ r. process_rectangle-Fated o r)

fated : (t u : Tunnel) (fate : Fate) → rectangle t ≡ ok fate u → Became t.client.output fate u
fated t u fate e = rw e at ((rectangle-Fated t.client.output).at t refl)

pub loop_lem :
    (n : ℕ) (must : Bool) (t : Tunnel) (flags : Flags) (u : Tunnel)
    → rectangles n must t ≡ ok flags u
    → Loop n must t flags u
unfolding rectangles
loop_lem zero must t flags u h =
    let f : record { must_use_last_rect = must; last_rect_received = false } ≡ flags = ok-value h in
    record {
      number = zero;
      middle = t.client.output;
      written = nothing t.client.output;
      at_most = omega arith;
      closed = λ c. cc (ap (λ (g : Flags). g.last_rect_received) f ∙ c);
      open_end = λ c. ap (λ (s : Tunnel). s.client.output) (sym (ok-state h));
      all = λ a b. refl;
      demanded = λ a. ap (λ (g : Flags). g.must_use_last_rect) f ∙ a;
    }
loop_lem (suc n) must t flags u h = elim (Result-cases (rectangle t)) [
  | inr (x, v, e) ↦ cc (sym (round_error n must t v x e) ∙ h)
  | inl (passed, v, e) ↦
      let l = loop_lem n must v flags u (sym (round_passed n must t v e) ∙ h) in
      record {
        number = suc l.number;
        middle = l.middle;
        written = one_more l.number t.client.output l.middle v (fated t v passed e) l.written;
        at_most = omega (arith, l.at_most);
        closed = l.closed;
        open_end = l.open_end;
        all = λ a b. ap suc (l.all a b);
        demanded = l.demanded;
      }
  | inl (skipped, v, e) ↦
      let l = loop_lem n true v flags u (sym (round_skipped n must t v e) ∙ h) in
      record {
        number = l.number;
        middle = l.middle;
        written = subst (λ o. Writes l.number o l.middle) (fated t v skipped e) l.written;
        at_most = omega (arith, l.at_most);
        closed = l.closed;
        open_end = l.open_end;
        all = λ a b. cc (l.demanded a);
        demanded = λ a. cc (l.demanded a);
      }
  | inl (last, v, e) ↦
      let h' = sym (round_last n must t v e) ∙ h in
      let f : record { must_use_last_rect = must; last_rect_received = true } ≡ flags =
        ok-value h' in
      record {
        number = zero;
        middle = t.client.output;
        written = nothing t.client.output;
        at_most = omega arith;
        closed = λ c. subst (HasLast t.client.output) (ok-state h') (fated t v last e);
        open_end = λ c. cc (ap (λ (g : Flags). g.last_rect_received) f ∙ c);
        all = λ a b. cc (ap (λ (g : Flags). g.last_rect_received) f ∙ b);
        demanded = λ a. ap (λ (g : Flags). g.must_use_last_rect) f ∙ a;
      }
]
