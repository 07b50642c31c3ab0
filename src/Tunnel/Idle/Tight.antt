-- ===== src/Tunnel/Idle/Tight.antt =====
-- The Tight rectangles of an update leave the push-back buffers empty.
use vncmanager.Base.{ℕ, arith, Bool, Action, check, Keeps, Keeps-check, overflow}
use vncmanager.Rfb.Messages.Server.{FramebufferUpdateRectangle, framebuffer_update_rectangle}
use vncmanager.Formatter.{send, forward_directly}
use vncmanager.Formatter.Buffer.{recv-Clears, forward-Hands, forward_directly-Hands}
use vncmanager.Tunnel.State.{Tunnel, on_client, to_client}
use vncmanager.Tunnel.Tight.{reset_streams, process_tight}
use vncmanager.Tunnel.Tight.Steps.{Steps, process_tight-Kept}
use vncmanager.Tunnel.Run.{is_connection_exception}
use vncmanager.Tunnel.Idle.{IsIdle, IsSpared, on_server-Keeps, to_client-Keeps, send-Keeps}

-- What a rectangle does.
abbrev pub Idles : {A : Type 0} → Action Tunnel A → Type 0
Idles m = Keeps IsIdle IsSpared m

-- The steps that the rectangles share.
pub forwards : (n : ℕ) → Idles (to_client (forward_directly n))
forwards n = to_client-Keeps _ n (forward_directly-Hands n)

pub header :
    (r : FramebufferUpdateRectangle) → Idles (on_client (send framebuffer_update_rectangle r))
header r = send-Keeps framebuffer_update_rectangle r

pub overflow_check : (b : Bool) → Idles (check b overflow)
unfolding is_connection_exception
overflow_check b = Keeps-check b overflow (λ t h k. cc k)

IsIdle-steps : Steps IsIdle IsSpared
IsIdle-steps = record {
  forwards = forwards;
  forwards_value = λ w. to_client-Keeps _ w.size (forward-Hands w);
  reads = λ w. on_server-Keeps _ w.size (recv-Clears w);
  sends = λ w v. send-Keeps w v;
  checks = overflow_check;
  resets = λ c. record { at = λ t h. unfold reset_streams in ground (arith, h) };
}

pub process_tight-Idles : (r : FramebufferUpdateRectangle) → Idles (process_tight r)
process_tight-Idles = process_tight-Kept IsIdle-steps
