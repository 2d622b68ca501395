-- ===== src/Server/Replica/Runs/Steps.antt =====
-- One client served by the primary, and one round of the loop of the backup server
-- (server-side/source/Server.cpp:16-71, 149-261 and 899-1049).
use dropbox_simulator.Common.{
  ◌≡◌, refl, sym, ap, ◌∙◌, ◌<◌, ◌≤◌, ◌^◌, true, false, ℤ, int_eq, Bytes, List, ◌++◌, concat, map,
  length, NoNul, c_string, if◌then◌else◌, none, some, same, inl, inr,
}
use dropbox_simulator.Registry.{Device}
use dropbox_simulator.Registry.Lookup.{devices_of}
use dropbox_simulator.Registry.Sockets.{socketless}
use dropbox_simulator.Thread.{Answer, done}
use dropbox_simulator.Wire.{Connection, CommandPacket, encode_command}
use dropbox_simulator.Wire.Laws.{ConnectionFits}
use dropbox_simulator.Server.{World, UserCurrentSocket, conn}
use dropbox_simulator.Server.Backups.{server_sockets}
use dropbox_simulator.Server.Session.{serve_connection}
use dropbox_simulator.Server.Session.Broadcast.{command_packet, sent_to, announcement}
use dropbox_simulator.Server.Session.Handshake.{Admissible, acceptance}
use dropbox_simulator.Server.Session.Outcome.{IsRefused, admitted_lem, serve_connection_lem}
use dropbox_simulator.Server.Commands.{dispatch, upload, delete, file_path}
use dropbox_simulator.Server.Commands.Peers.{facing, peer_sockets}
use dropbox_simulator.Server.Commands.Upload.{
  uploading, upload_outbox, upload_file_command_lem, storing,
}
use dropbox_simulator.Server.Commands.Removal.{delete_messages, delete_file_command_lem, without}
use dropbox_simulator.Server.Commands.Serving.{delivered}
use dropbox_simulator.Server.History.Locked.{dispatch-delete, dispatch-upload}
use dropbox_simulator.Server.Replica.{serve_primary}
use dropbox_simulator.Server.Replica.Mirror.{serve_primary-upload, serve_primary-delete}
use dropbox_simulator.Server.Replica.Connections.{
  mirror_tables_lem, serve_primary-mirror_tables, with_directory, user_directory,
}
use dropbox_simulator.Server.Replica.Tables.{
  entered_alike, IsRefused-alike, mirror_tables-entered, handle_user_controller_structure-entered,
}
use dropbox_simulator.Server.Replica.Runs.{written_to, Others, IsPrimary, Mirrors}
use dropbox_simulator.Server.Replica.Runs.Messages.{
  own_messages, announced_lem, uploaded_lem, sent_to-Addressed, written_to-append,
  written_to-Others,
}

-- What the primary has written to the socket `k` since `p` makes a backup do as it did.
abbrev pub Repeated : ℤ → World → World → Type 0
Repeated k p u =
    (ms : List (ℤ × Bytes)) × (u.net.outbox ≡ p.net.outbox ++ ms)
    × ((b : World) (rest : List Answer)
        → Mirrors p b
        → (c : World) × (serve_primary (facing (delivered (written_to k ms) ++ rest) b)
            ≡ (done tt, facing rest c))
          × Mirrors u c)

pub connection_step :
    (k : ℤ) (w : World) (name : Bytes) (connection : Connection) (socket : ℤ)
    → Admissible name connection
    → connection.packet_type ≡ conn
    → ConnectionFits connection
    → length name < 39
    → ¬ IsRefused name connection w
    → int_eq socket k ≡ false
    → IsPrimary k w
    → let u = (serve_connection connection socket w).1 in IsPrimary k u × Repeated k w u
connection_step k w name connection socket ok is_conn in_range short welcome other p =
    let free = p.unlocked.users_free in
    elim (serve_connection_lem name connection socket ok w p.steady p.table_IsValid free is_conn
      short) [
        | inl (refused, _) ↦ absurd (welcome refused)
        | inr (_, (us, d, r, valid, up)) ↦
            let entering : World = record w { user_lock = 0 } in
            let (us', r', e) =
              handle_user_controller_structure-entered name connection ok socket entering
                (record { whole_writes = p.steady.whole_writes; memory = p.steady.memory })
                p.table_IsValid welcome in
            let same_us : us ≡ us' =
              ap (λ x. x.1.users)
                (sym r ∙ admitted_lem name connection socket ok w us' free is_conn short r') in
            rw r (
              record {
                steady = record { whole_writes = p.steady.whole_writes; memory = p.steady.memory };
                unlocked = record { users_free = refl; servers_free = p.unlocked.servers_free };
                table_IsValid = valid;
                has_backup = p.has_backup;
              },
              (
                acceptance w connection socket,
                refl,
                λ b rest m.
                    let to_backup : written_to k (acceptance w connection socket)
                        ≡ announcement w connection k =
                      announced_lem k w connection socket other p.has_backup in
                    let (us_b, r_b, (valid_b, _)) =
                      mirror_tables_lem name connection ok
                        (with_directory name connection ok (facing rest b)) m.backup_IsValid
                        (λ refused.
                          welcome (IsRefused-alike name connection w b m.same_tables refused)) in
                    (
                      record (with_directory name connection ok b) { users = us_b },
                      rw to_backup (
                          serve_primary-mirror_tables name connection ok k rest w b p.steady
                            in_range short
                          ∙ r_b),
                      record {
                        same_tables =
                            ap socketless same_us
                            ∙ e
                            ∙ entered_alike name connection.device w.users b.users m.same_tables
                            ∙ sym (
                                mirror_tables-entered name connection ok
                                  (with_directory name connection ok (facing rest b)) us_b r_b);
                        same_files = m.same_files;
                        same_dirs =
                            ap
                              (λ f q.
                                if same q (user_directory name connection ok) then true else f q)
                              m.same_dirs;
                        same_writable = m.same_writable;
                        backup_IsValid = valid_b;
                      },
                    ),
              ),
            )
      ]

pub upload_step :
    (k : ℤ) (w : World) (current : UserCurrentSocket) (command : CommandPacket)
    (name payload kind : Bytes) (rest : List Answer) (ds : List Device)
    → devices_of current.user_name w.users ≡ some ds
    → length kind ≤ 8
    → NoNul name
    → NoNul (file_path current.user_name name)
    → length (file_path current.user_name name) < 100
    → 0 < length payload
    → length payload < 2 ^ 31
    → w.writable (file_path current.user_name name) ≡ true
    → command.command ≡ upload
    → int_eq current.current_socket k ≡ false
    → Others k (peer_sockets current ds)
    → IsPrimary k w
    → let u = (dispatch current command (facing (uploading current name payload kind rest) w)).1 in
      IsPrimary k u × Repeated k w u
upload_step k w current command name payload kind rest ds at kind_fits named path_named short
      some_bytes small writable is_upload other others p =
    let path = file_path current.user_name name in
    let done_lem =
      dispatch-upload current command (facing (uploading current name payload kind rest) w)
        is_upload
      ∙ upload_file_command_lem current name payload kind rest ds w p.steady p.unlocked at kind_fits
          named short some_bytes small writable in
    rw done_lem (
      record {
        steady = record { whole_writes = p.steady.whole_writes; memory = p.steady.memory };
        unlocked = record {
          users_free = p.unlocked.users_free;
          servers_free = p.unlocked.servers_free;
        };
        table_IsValid = p.table_IsValid;
        has_backup = p.has_backup;
      },
      (
        upload_outbox current name payload kind rest ds w,
        refl,
        λ b later m. (
          storing path payload b,
          rw (uploaded_lem k current name payload kind rest ds w other others p.has_backup) (
              serve_primary-upload path payload k later w b p.steady path_named short some_bytes
                small (ap (λ f. f path) (sym m.same_writable) ∙ writable)),
          record {
            same_tables = m.same_tables;
            same_files = ap (λ f q. if same q path then some payload else f q) m.same_files;
            same_dirs = m.same_dirs;
            same_writable = m.same_writable;
            backup_IsValid = m.backup_IsValid;
          },
        ),
      ),
    )

pub deletion_step :
    (k : ℤ) (w : World) (current : UserCurrentSocket) (command : CommandPacket) (name : Bytes)
    (ds : List Device)
    → devices_of current.user_name w.users ≡ some ds
    → c_string command.additional_info ≡ some name
    → NoNul (file_path current.user_name name)
    → length (file_path current.user_name name) < 100
    → command.command ≡ delete
    → Others k (peer_sockets current ds)
    → IsPrimary k w
    → let u = (dispatch current command w).1 in IsPrimary k u × Repeated k w u
deletion_step k w current command name ds at named path_named short is_delete others p =
    let path = file_path current.user_name name in
    let to_peers =
      concat (map (λ j. sent_to j (encode_command command)) (peer_sockets current ds)) in
    let to_servers = concat (map (delete_messages path w) (server_sockets w.servers)) in
    let to_backup : written_to k (to_peers ++ to_servers) ≡ delete_messages path w k =
      written_to-append k to_peers to_servers
      ∙ rw
          (written_to-Others k (λ j. sent_to j (encode_command command))
            (λ j. sent_to-Addressed j (encode_command command)) (peer_sockets current ds) others)
          (own_messages k w (delete_messages path w)
            (λ j. sent_to-Addressed j (encode_command (command_packet w delete path)))
            p.has_backup) in
    let done_lem =
      dispatch-delete current command w is_delete
      ∙ delete_file_command_lem current command name ds w p.steady p.unlocked at named short in
    rw done_lem (
      record {
        steady = record { whole_writes = p.steady.whole_writes; memory = p.steady.memory };
        unlocked = record {
          users_free = p.unlocked.users_free;
          servers_free = p.unlocked.servers_free;
        };
        table_IsValid = p.table_IsValid;
        has_backup = p.has_backup;
      },
      (
        to_peers ++ to_servers,
        refl,
        λ b later m. (
          without path b,
          rw to_backup (serve_primary-delete path k later w b p.steady path_named short),
          record {
            same_tables = m.same_tables;
            same_files = ap (λ f q. if same q path then none else f q) m.same_files;
            same_dirs = m.same_dirs;
            same_writable = m.same_writable;
            backup_IsValid = m.backup_IsValid;
          },
        ),
      ),
    )
