-- ===== src/Tunnel/FromServer.antt =====
-- `VncTunnel::serverReceive` and the handlers of the other messages of an Xvnc.
pub mod Relay
use vncmanager.Base.{
  ℕ, ◌*◌, ◌==◌, if◌then◌else◌, Action, throw, ◌>>=◌, ◌>>◌, unknown_server_message,
  colour_map_not_implemented,
}
use vncmanager.Rfb.Values.ServerMessageType
use vncmanager.Rfb.Wire.{u8}
use vncmanager.Rfb.Messages.Server.{
  set_colour_map_entries_message, colour_map_entry, bell_message, server_cut_text_message,
}
use vncmanager.Formatter.{recv, push_back, forward, forward_directly}
use vncmanager.Tunnel.State.{Tunnel, on_server, to_client}
use vncmanager.Tunnel.Update.{process_framebuffer_update}

unfoldable pub process_set_colour_map_entries : Action Tunnel (Unit {0})
unfolding forward forward_directly
process_set_colour_map_entries = do
  message ← to_client (forward set_colour_map_entries_message)
  to_client (forward_directly (colour_map_entry.size * message.number_of_colours))

unfoldable pub process_bell : Action Tunnel (Unit {0})
unfolding forward_directly
process_bell = to_client (forward_directly bell_message.size)

unfoldable pub process_server_cut_text : Action Tunnel (Unit {0})
unfolding forward forward_directly
process_server_cut_text = do
  message ← to_client (forward server_cut_text_message)
  to_client (forward_directly message.text_length)

-- The switch of `serverReceive`.
unfoldable pub server_dispatch : ℕ → Action Tunnel (Unit {0})
server_dispatch type =
    if type == ServerMessageType.framebuffer_update
    then process_framebuffer_update
    else (if type == ServerMessageType.set_colour_map_entries
        then (do process_set_colour_map_entries; throw colour_map_not_implemented)
        else (if type == ServerMessageType.bell
            then process_bell
            else (if type == ServerMessageType.server_cut_text
                then process_server_cut_text
                else throw unknown_server_message)))

unfoldable pub server_receive : Action Tunnel (Unit {0})
unfolding recv push_back server_dispatch
server_receive = do type ← on_server (recv u8); on_server (push_back u8 type); server_dispatch type
