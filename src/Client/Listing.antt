-- ===== src/Client/Listing.antt =====
-- The command that lists the server's files, on both sides of a connection
-- (client-side/source/Client.cpp:247-256 and server-side/source/Server.cpp:1141-1156).
use dropbox_simulator.Common.{◌≡◌, ℤ, Bytes, text, List, [], ◌∷◌, ◌++◌, arith}
use dropbox_simulator.Thread.{done, Answer}
use dropbox_simulator.Wire.{encode_command}
use dropbox_simulator.Server.{World, UserCurrentSocket}
use dropbox_simulator.Server.Session.Broadcast.{Steady, having_sent, sent_to}
use dropbox_simulator.Server.Commands.{list_server, serve_command, dispatch}
use dropbox_simulator.Server.Commands.Peers.{facing}
use dropbox_simulator.Server.Commands.Serving.{delivered, serve_command_lem}
use dropbox_simulator.Client.{Local, list_server_files, bare_command}
use dropbox_simulator.Client.Sending.{
  Reliable, writing, meeting, bare_packet, request_lem, bare_packet-CommandFits,
}

-- A request for the list of files: the server acknowledges it, changes nothing and sends nothing
-- else; the client waits for the acknowledgement and gets no list. (With whole writes on both
-- sides.)
pub serve_command-list_server_files :
    (current : UserCurrentSocket) (sockfd : ℤ) (rest rest' : List Answer) (w : World) (c : Local)
    → Steady w
    → Reliable c
    → let request = sent_to sockfd (encode_command (bare_packet c list_server)) in
      let one : List (ℤ × Bytes) = (current.current_socket, text "ack") ∷ [] in
      (list_server_files sockfd (meeting (delivered one ++ rest) c)
        ≡ (done tt, writing request (meeting rest c)))
      × (serve_command current (facing (delivered request ++ rest') w)
          ≡ (done tt, having_sent one (facing rest' w)))
unfolding list_server_files bare_command dispatch
serve_command-list_server_files current sockfd rest rest' w c h hc = (
  request_lem sockfd (bare_packet c list_server) (text "ack") rest c hc.whole_writes (omega arith),
  serve_command_lem current (bare_packet c list_server) sockfd rest' w h
      (bare_packet-CommandFits c list_server hc (omega arith)),
)
