-- ===== src/Tunnel/Tight/Steps.antt =====
-- What each step of a Tight rectangle keeps, the rectangle keeps.
use vncmanager.Base.{
  ℕ, ◌+◌, ◌*◌, Bool, ltb, Action, Error, gets, check, Keeps, Leads-if, Leads-bind, Keeps-gets,
  Keeps-pure, overflow,
}
use vncmanager.Rfb.Wire.{Wire, u8}
use vncmanager.Rfb.Tight.{TightCompressionControl, tight_compression_control, tight_pixel_size}
use vncmanager.Rfb.Messages.Server.{FramebufferUpdateRectangle}
use vncmanager.Formatter.{recv, send, forward, forward_directly}
use vncmanager.Tunnel.State.{Tunnel, on_client, on_server, to_client}
use vncmanager.Tunnel.Tight.{
  tight_length, forward_tight_variable_length_data, reset_streams, read_filter, filtered_bpp,
  tight_data_size, int_limit, basic_compression, tight_body, process_tight,
}

-- The steps of which rectangles are made.
pub record Steps (I : Tunnel → Type 0) (E : Error → Tunnel → Type 0) : Type 1 where
  pub forwards : (n : ℕ) → Keeps I E (to_client (forward_directly n))
  pub forwards_value : {T : Type 0} (w : Wire T) → Keeps I E (to_client (forward w))
  pub reads : {T : Type 0} (w : Wire T) → Keeps I E (on_server (recv w))
  pub sends : {T : Type 0} (w : Wire T) (v : T) → Keeps I E (on_client (send w v))
  pub checks : (b : Bool) → Keeps I E (check b overflow)
  pub resets : (c : TightCompressionControl) → Keeps I E (reset_streams c)

module _ {I : Tunnel → Type 0} {E : Error → Tunnel → Type 0} (steps : Steps I E) where
  abbrev Kept : {A : Type 0} → Action Tunnel A → Type 0
  Kept m = Keeps I E m

  tight_length-Kept : Kept tight_length
  unfolding tight_length
  tight_length-Kept = Leads-bind (to_client (forward u8)) _ (steps.forwards_value u8) (λ first.
      Leads-if _ _ _
        (Leads-bind (to_client (forward u8)) _ (steps.forwards_value u8) (λ second.
          Leads-if _ _ _
            (Leads-bind (to_client (forward u8)) _ (steps.forwards_value u8)
              (λ third. Keeps-pure _))
            (Keeps-pure _)))
        (Keeps-pure _))

  variable_length-Kept : Kept forward_tight_variable_length_data
  unfolding forward_tight_variable_length_data
  variable_length-Kept = Leads-bind tight_length _ tight_length-Kept steps.forwards

  filtered_bpp-Kept : (bpp filter : ℕ) → Kept (filtered_bpp bpp filter)
  unfolding filtered_bpp
  filtered_bpp-Kept bpp filter =
      Leads-if _ _ _
        (Leads-bind (to_client (forward u8)) _ (steps.forwards_value u8) (λ n.
          Leads-bind (to_client (forward_directly (tight_pixel_size * (n + 1)))) _
            (steps.forwards _) (λ _. Keeps-pure _)))
        (Keeps-pure _)

  read_filter-Kept : (c : TightCompressionControl) → Kept (read_filter c)
  unfolding read_filter
  read_filter-Kept c = Leads-if _ _ _ (steps.forwards_value u8) (Keeps-pure _)

  basic-Kept :
      (r : FramebufferUpdateRectangle) (c : TightCompressionControl) → Kept (basic_compression r c)
  unfolding basic_compression
  basic-Kept r c = Leads-bind (read_filter c) _ (read_filter-Kept c) (λ filter.
      Leads-bind (gets (λ t. t.pixel_format.bits_per_pixel)) _ (Keeps-gets _) (λ bits.
        Leads-bind (filtered_bpp bits filter) _ (filtered_bpp-Kept bits filter) (λ bpp.
          Leads-bind (check (ltb (tight_data_size bpp r) int_limit) overflow) _ (steps.checks _)
            (λ _. Leads-if _ _ _ (steps.forwards _) variable_length-Kept))))

  tight_body-Kept :
      (r : FramebufferUpdateRectangle) (c : TightCompressionControl) → Kept (tight_body r c)
  unfolding tight_body
  tight_body-Kept r c =
      Leads-if _ _ _ (steps.forwards _) (Leads-if _ _ _ variable_length-Kept (basic-Kept r c))

  pub process_tight-Kept : (r : FramebufferUpdateRectangle) → Kept (process_tight r)
  unfolding process_tight
  process_tight-Kept r =
      Leads-bind (on_server (recv tight_compression_control)) _
        (steps.reads tight_compression_control)
        (λ c. Leads-bind (reset_streams c) _ (steps.resets c) (λ c'.
          Leads-bind (on_client (send tight_compression_control c')) _
            (steps.sends tight_compression_control c') (λ _. tight_body-Kept r c')))
