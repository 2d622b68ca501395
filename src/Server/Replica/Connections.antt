-- ===== src/Server/Replica/Connections.antt =====
-- What the primary server announces about a connection, read by a backup server
-- (server-side/source/Server.cpp:857-868, 249-263 and 142-167).
use dropbox_simulator.Common.{
  suc, ◌≡◌, ◌≢◌, ◌∙◌, subst, ◌<◌, refl, true, ℤ, int_eq_iff, Bytes, text, List, ◌++◌, length, same,
  same_iff, some, none, arith, inl, inr, ltb, if◌then◌else◌,
}
use dropbox_simulator.Registry.{Device, Users, free_device, insert_user}
use dropbox_simulator.Registry.Lookup.{devices_of, device_of}
use dropbox_simulator.Registry.Writes.{with_id}
use dropbox_simulator.Registry.Invariant.{IsValid}
use dropbox_simulator.Registry.Sessions.{Updates, IsName, IsId}
use dropbox_simulator.Registry.Contracts.{IsFound, HasSocket, set_socket-HasSocket}
use dropbox_simulator.Registry.Refinement.{
  insert_user_lem, insert_device-Inserted, insert_socket_lem,
}
use dropbox_simulator.Thread.{done, Answer, after, ◌>>◌}
use dropbox_simulator.Transfer.{read_large_payload}
use dropbox_simulator.Transfer.Loops.{pieces, arriving}
use dropbox_simulator.Wire.{Connection, encode_connection, encode_command, connection_size}
use dropbox_simulator.Wire.Laws.{
  ConnectionFits, decode_connection-encode_connection, decode_command-encode_command,
}
use dropbox_simulator.Server.{
  World, Server, on_net, from_checked, database_dir, slash, create_user_directory,
}
use dropbox_simulator.Server.Session.{
  insert_user_command, socket_type_arg, table_insert_user, table_insert_device, table_insert_socket,
}
use dropbox_simulator.Server.Session.Broadcast.{Steady, command_packet, sent_to, announcement}
use dropbox_simulator.Server.Session.Handshake.{Admissible, connected}
use dropbox_simulator.Server.Session.Outcome.{IsRefused}
use dropbox_simulator.Server.Commands.Peers.{facing, read_payload_lem}
use dropbox_simulator.Server.Commands.Upload.{or_fault_lem}
use dropbox_simulator.Server.Replica.{serve_primary, insert_user_connected_in_primary}
use dropbox_simulator.Server.Commands.Serving.{
  delivered, delivered-append, delivered-addressed, read_command_lem,
}
use dropbox_simulator.Server.Replica.Mirror.{command_packet-CommandFits}

pub read_connection_lem :
    (c : Connection) (socket : ℤ) (rest : List Answer) (w : World)
    → ConnectionFits c
    → on_net
        (read_large_payload connection_size)
        (facing (delivered (sent_to socket (encode_connection c)) ++ rest) w)
      ≡ (done (encode_connection c), facing rest w)
read_connection_lem c socket rest w fits =
    let size : length (encode_connection c) ≡ 128 =
      (decode_connection-encode_connection c fits).1 in
    rw
      (delivered-addressed socket
        (pieces (suc (length (encode_connection c))) (encode_connection c)))
      (subst
        (λ n.
          on_net (read_large_payload n) (
            facing
              (arriving (pieces (suc (length (encode_connection c))) (encode_connection c)) ++ rest)
              w)
          ≡ (done (encode_connection c), facing rest w))
        size
        (read_payload_lem (encode_connection c) rest w (omega (arith, size)) (omega (arith, size))))

module _ (name : Bytes) (connection : Connection) (ok : Admissible name connection) where
  -- The three calls on the table of a backup server.
  abbrev pub mirror_tables : Server (Unit {0})
  mirror_tables =
      table_insert_user name
      >> (table_insert_device name connection.device
          >> table_insert_socket name connection connection.socket)

  -- The table has the device, which was there or is new, with its socket, and nothing else of it
  -- has changed.
  abbrev pub Mirrored : World → Users → Type 0
  Mirrored w us =
      IsValid us
      × ((d : Device) × (e : Device) × IsFound name connection.device w.users d
          × HasSocket (socket_type_arg connection.socket_type) connection.socket d e
          × Updates name connection.device (some e) w.users us)

  insert_socket_after :
      (w : World) (vs : Users) (d : Device)
      → IsValid vs
      → IsFound name connection.device w.users d
      → Updates name connection.device (some d) w.users vs
      → (us : Users) × (table_insert_socket name connection connection.socket
            (record w { users = vs })
          ≡ (done tt, record w { users = us }))
        × Mirrored w us
  insert_socket_after w vs d v found p =
      let there : device_of name connection.device vs ≡ some d = ground (
        arith,
        p name connection.device ok.name_ok ok.id_ok,
        same_iff name name,
        int_eq_iff connection.device connection.device,
      ) in
      let (us, r, valid, q) =
        insert_socket_lem name connection.device vs ok.name_ok ok.id_ok v connection.socket
          (socket_type_arg connection.socket_type) d ok.socket_ok there in
      let e = connected connection connection.socket d in
      let written =
        set_socket-HasSocket connection.socket (socket_type_arg connection.socket_type) d
          ok.socket_ok in
      (
        us,
        rw (r, from_checked) refl,
        (valid, (d, e, found, written, λ n k hn hk. ground (arith, p n k hn hk, q n k hn hk))),
      )

  -- The device is put into the table `ts`, which has the user and the devices of `w`.
  insert_device_after :
      (w : World) (ts : Users)
      → IsValid ts
      → ((n : Bytes) (k : ℤ) → IsName n → IsId k → device_of n k ts ≡ device_of n k w.users)
      → devices_of name ts ≢ none
      → ¬ IsRefused name connection (record w { users = ts })
      → (us : Users) × ((table_insert_device name connection.device
              >> table_insert_socket name connection connection.socket)
            (record w { users = ts })
          ≡ (done tt, record w { users = us }))
        × Mirrored w us
  insert_device_after w ts v unchanged known welcome =
      let (code, vs, r, valid, outcome) =
        insert_device-Inserted name connection.device ts ok.name_ok ok.id_ok v in
      elim outcome [
        | inl (c, missing, same_table) ↦ absurd (known missing)
        | inr (inl (d, c, there, same_table)) ↦
            rw (r, from_checked)
              (rw same_table (
                insert_socket_after w ts d v
                  (inl (ground (arith, unchanged name connection.device ok.name_ok ok.id_ok)))
                  (λ n k hn hk.
                    ground (
                      arith,
                      unchanged n k hn hk,
                      same_iff name n,
                      int_eq_iff connection.device k,
                    ))))
        | inr (inr (inl (ds, c, fresh, at, full, same_table))) ↦
            absurd (welcome (fresh, inl (ds, at, full)))
        | inr (inr (inr (ds, c, fresh, at, room, p))) ↦
            rw (r, from_checked)
              (insert_socket_after w vs (with_id connection.device free_device) valid
                (inr (ground (arith, unchanged name connection.device ok.name_ok ok.id_ok), refl))
                (λ n k hn hk. ground (arith, p n k hn hk, unchanged n k hn hk)))
      ]

  pub mirror_tables_lem :
      (w : World)
      → IsValid w.users
      → ¬ IsRefused name connection w
      → (us : Users) × (mirror_tables w ≡ (done tt, record w { users = us })) × Mirrored w us
  mirror_tables_lem w v welcome =
      let (valid, unchanged, outcome) = insert_user_lem name w.users ok.name_ok v in
      elim outcome [
        | inl (r, known) ↦ rw r (insert_device_after w w.users v (λ n k hn hk. refl) known welcome)
        | inr (inl (r, stranger, full)) ↦ absurd (welcome (ground arith, inr (stranger, full)))
        | inr (inr (r, stranger, room, (ds, at, empty))) ↦
            insert_device_after w (insert_user name w.users).1 valid unchanged (ground arith)
              (λ (fresh, why). elim why [
                | inl (es, at', full) ↦ ground arith
                | inr (missing, many) ↦ ground arith
              ])
      ]

  abbrev pub user_directory : Bytes
  user_directory = database_dir ++ (slash ++ name)

  -- A backup server, with the directory of the user.
  abbrev pub with_directory : World → World
  with_directory w = record w { dirs = λ q. if same q user_directory then true else w.dirs q }

  -- What a backup server is sent about a connection makes it create the user's directory and call
  -- the functions on its table.
  pub serve_primary-mirror_tables :
      (socket : ℤ) (rest : List Answer) (p b : World)
      → Steady p
      → ConnectionFits connection
      → length name < 39
      → serve_primary (facing (delivered (announcement p connection socket) ++ rest) b)
        ≡ mirror_tables (with_directory (facing rest b))
  unfolding serve_primary insert_user_connected_in_primary create_user_directory
  serve_primary-mirror_tables socket rest p b h in_range short =
      let c = command_packet p insert_user_command (text "stringteste") in
      let fits =
        command_packet-CommandFits insert_user_command (text "stringteste") p h (omega arith)
          (omega arith) in
      let body = delivered (sent_to socket (encode_connection connection)) ++ rest in
      let room : ltb (length user_directory) 50 ≡ true = ground arith in
      rw
        (delivered-append (sent_to socket (encode_command c))
          (sent_to socket (encode_connection connection)) rest)
        (after _ (read_command_lem c socket body b fits) (
          rw (decode_command-encode_command c fits).0 (
            after _ (read_connection_lem connection socket rest b in_range) (
              rw (decode_connection-encode_connection connection in_range).0
                (after _ (or_fault_lem ok.is_named) (rw room refl))))))

  -- What a backup server is sent about a connection makes it create the user's directory and put
  -- the device into its table, or find it there, and set its socket of that type to the number that
  -- the packet names; the other two sockets of the device and every other device are as they were,
  -- and the table stays well formed. (With the memory of the primary `p` as large as it is asked for, a
  -- packet whose members are in range, a name that is not empty and has at most 38 bytes, an id
  -- that is not -1, one of the three socket types, and a well-formed table of the backup `b` with
  -- room for the device.)
  pub serve_primary-connection :
      (socket : ℤ) (rest : List Answer) (p b : World)
      → Steady p
      → ConnectionFits connection
      → length name < 39
      → IsValid b.users
      → ¬ IsRefused name connection b
      → let path = database_dir ++ (slash ++ name) in
        (us : Users) × (serve_primary
            (facing (delivered (announcement p connection socket) ++ rest) b)
          ≡ (
            done tt,
            record (facing rest b) {
              users = us;
              dirs = λ q. if same q path then true else b.dirs q;
            },
          ))
        × Mirrored b us
  serve_primary-connection socket rest p b h in_range short v welcome =
      let (us, r, mirrored) = mirror_tables_lem (with_directory (facing rest b)) v welcome in
      (us, serve_primary-mirror_tables socket rest p b h in_range short ∙ r, mirrored)
