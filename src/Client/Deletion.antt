-- ===== src/Client/Deletion.antt =====
-- A deletion, on both sides of a connection (client-side/source/Client.cpp:193-206 and
-- server-side/source/Server.cpp:1009-1049).
use dropbox_simulator.Common.{
  suc, ◌≡◌, ◌<◌, ap, ◌∙◌, ℤ, Bytes, text, List, [], ◌∷◌, ◌++◌, concat, map, length, NoNul,
  c_string-append_nul, length-append, drop, some, arith,
}
use dropbox_simulator.Registry.{Device}
use dropbox_simulator.Registry.Lookup.{devices_of}
use dropbox_simulator.Thread.{done, Answer}
use dropbox_simulator.Wire.{encode_command}
use dropbox_simulator.Server.{World, UserCurrentSocket, slash}
use dropbox_simulator.Server.Backups.{server_sockets}
use dropbox_simulator.Server.Session.Broadcast.{Steady, having_sent, having_sent_twice, sent_to}
use dropbox_simulator.Server.Commands.{delete, serve_command, dispatch, file_path}
use dropbox_simulator.Server.Commands.Peers.{facing, peer_sockets}
use dropbox_simulator.Server.Commands.Propagation.{Unlocked}
use dropbox_simulator.Server.Commands.Removal.{without, delete_messages, delete_file_command_lem}
use dropbox_simulator.Server.Commands.Serving.{delivered, serve_command_lem}
use dropbox_simulator.Client.{Local, delete_file}
use dropbox_simulator.Client.Sending.{
  Reliable, writing, meeting, named_packet, named_packet-CommandFits,
}
use dropbox_simulator.Client.Downloads.{delete_file_lem}

module _ (current : UserCurrentSocket) (sockfd : ℤ) where
  -- A deletion from both sides. What the client writes makes the thread of its connection remove
  -- the user's file of that name, send the command on to the other devices of the user and the
  -- path to each backup server, and answer with the one acknowledgement that the client waits for.
  -- (With whole writes on both sides, both semaphores free, the user in the table, and a name
  -- without NUL bytes that fits with the path in 100 bytes.)
  pub serve_command-delete_file :
      (name : Bytes) (ds : List Device) (rest rest' : List Answer) (w : World) (c : Local)
      → Steady w
      → Unlocked w
      → Reliable c
      → devices_of current.user_name w.users ≡ some ds
      → NoNul name
      → length (file_path current.user_name name) < 100
      → let request = sent_to sockfd (encode_command (named_packet c delete name)) in
        let one : List (ℤ × Bytes) = (current.current_socket, text "ack") ∷ [] in
        let path = file_path current.user_name name in
        (delete_file sockfd name (meeting (delivered one ++ rest) c)
          ≡ (done tt, writing request (meeting rest c)))
        × (serve_command current (facing (delivered request ++ rest') w) ≡ (
          done tt,
          having_sent
              (one
                ++ (concat (
                      map
                        (λ k. sent_to k (encode_command (named_packet c delete name)))
                        (peer_sockets current ds))
                    ++ concat (map (delete_messages path w) (server_sockets w.servers))))
              (without path (facing rest' w)),
        ))
  unfolding dispatch
  serve_command-delete_file name ds rest rest' w c h free hc at named short =
      let packet = named_packet c delete name in
      let path = file_path current.user_name name in
      let name_short : length name < 100 =
        ground (arith, length-append current.user_name (slash ++ name)) in
      let is_name =
        c_string-append_nul name (drop (suc (length name)) (c.indeterminate 100)) named in
      let one : List (ℤ × Bytes) = (current.current_socket, text "ack") ∷ [] in
      let told =
        concat (map (λ k. sent_to k (encode_command packet)) (peer_sockets current ds))
        ++ concat (map (delete_messages path w) (server_sockets w.servers)) in
      (
        delete_file_lem sockfd name (text "ack") rest c hc name_short (omega arith),
        serve_command_lem current packet sockfd rest' w h
              (named_packet-CommandFits c delete name hc (omega arith) name_short)
            ∙ delete_file_command_lem current packet name ds (having_sent one (facing rest' w))
                (record { whole_writes = h.whole_writes; memory = h.memory })
                (record { users_free = free.users_free; servers_free = free.servers_free }) at
                is_name short
            ∙ ap (λ u. (done tt, without path (facing rest' u))) (having_sent_twice one told w),
      )
