-- ===== src/Server/Commands/Removal.antt =====
-- What a deletion and an exit leave behind (server-side/source/Server.cpp:1009-1049 and
-- 1099-1167), when every write takes all that it is given.
use dropbox_simulator.Common.{
  length-append, ℕ, suc, ◌≡◌, ◌<◌, refl, sym, ap, ◌∙◌, ℤ, pos, int_eq, Bytes, List, [], ◌∷◌, ◌++◌,
  concat, map, length, get_elem?, none, some, arith, Bool-cases, inl, inr, if◌then◌else◌, same,
  same_refl, c_string,
}
use dropbox_simulator.Registry
use dropbox_simulator.Registry.{
  Device, Users, free_device, success, get_user, devices_at, find_device, get_device, remove_device,
  remove_user, is_device_connected, any_connected, defined, is_truthy,
}
use dropbox_simulator.Registry.Lookup.{
  devices_of, device_with, device_of, on_device, on_device_of, get_user_cases,
}
use dropbox_simulator.Registry.Cases.{remove_device_cases, is_device_connected_cases}
use dropbox_simulator.Registry.Writes.{devices_of-on_user}
use dropbox_simulator.Registry.Invariant.{IsValid, free_device-IsValid}
use dropbox_simulator.Registry.Removal.{remove_user_lem}
use dropbox_simulator.Registry.Sessions.{Updates, free_device-Updates, IsName, IsId}
use dropbox_simulator.Registry.Refinement.{remove_user-refines}
use dropbox_simulator.Thread.{done, exits, after}
use dropbox_simulator.Wire.{CommandPacket, encode_command}
use dropbox_simulator.Server.{World, UserCurrentSocket, cmd, wait_users, post_users, on_users}
use dropbox_simulator.Server.Backups.{server_sockets}
use dropbox_simulator.Server.Session.Broadcast.{
  Steady, having_sent, having_sent_twice, for_each_server_lem, sent_to, send_lem, command_packet,
  new_command_lem,
}
use dropbox_simulator.Wire.{to_le, int_bits}
use dropbox_simulator.Wire.Laws.{length-encode_command, length-to_le}
use dropbox_simulator.Server.Commands.{
  delete, exit, delete_file_command, propagate_delete, forward_delete, exit_command, close_device,
  close_sockets, drop_user, forward_exit, session_bytes, file_path, remove_file, dispatch,
}
use dropbox_simulator.Server.Commands.Peers.{peer_sockets, having_sent-Steady}
use dropbox_simulator.Server.Commands.Propagation.{Unlocked, Sends, propagate_lem}

-- The world without a file.
abbrev pub without : Bytes → World → World
without path w = record w { files = λ p. if same p path then none else w.files p }

abbrev pub delete_messages : Bytes → World → ℤ → List (ℤ × Bytes)
delete_messages path w socket = sent_to socket (encode_command (command_packet w delete path))

forward_delete-Sends :
    (path : Bytes) → length path < 100 → Sends (forward_delete path) (delete_messages path)
unfolding forward_delete
forward_delete-Sends path short = record {
  stable = λ xs u k. refl;
  locks = λ l m u. refl;
  sends = λ k u h. after _ (new_command_lem delete path u h short) (
      send_lem k (encode_command (command_packet u delete path)) u h
        (length-encode_command (command_packet u delete path)));
}

module _ (current : UserCurrentSocket) where
  -- A deletion takes the file of that name from the user's directory, whether it was there or not,
  -- then sends the command as it came to the third socket of each other device of the user, and
  -- one with the path to each backup server; nothing else changes, and both semaphores are free
  -- again. (With whole writes, both semaphores free, the user in the table, a command that names
  -- the file and a path of less than 100 bytes.)
  pub delete_file_command_lem :
      (command : CommandPacket) (name : Bytes) (ds : List Device) (w : World)
      → Steady w
      → Unlocked w
      → devices_of current.user_name w.users ≡ some ds
      → c_string command.additional_info ≡ some name
      → length (file_path current.user_name name) < 100
      → let path = file_path current.user_name name in
        delete_file_command current command w ≡ (
          done tt,
          having_sent
              (concat (map (λ k. sent_to k (encode_command command)) (peer_sockets current ds))
                ++ concat (map (delete_messages path w) (server_sockets w.servers)))
              (without path w),
        )
  unfolding delete_file_command propagate_delete remove_file
  delete_file_command_lem command name ds w h free at named short =
      let path = file_path current.user_name name in
      rw named (
        propagate_lem current _ (forward_delete path) (λ u k. sent_to k (encode_command command))
          (delete_messages path) ds (without path w)
          (record {
            stable = λ xs u k. refl;
            locks = λ l m u. refl;
            sends =
                λ k u h. send_lem k (encode_command command) u h (length-encode_command command);
          })
          (forward_delete-Sends path short)
          (record { whole_writes = h.whole_writes; memory = h.memory })
          (record { users_free = free.users_free; servers_free = free.servers_free }) at)

find_device-get_elem? :
    (k : ℤ) (ds : List Device) (d : Device)
    → device_with k ds ≡ some d
    → (j : ℕ) × (find_device k ds ≡ some j) × (get_elem? ds j ≡ some d)
unfolding find_device device_with
find_device-get_elem? k [] d e = absurd (ground arith)
find_device-get_elem? k (x ∷ ds) d e = elim (Bool-cases (int_eq x.id k)) [
  | inl here ↦ (0, ground arith, ground arith)
  | inr there ↦
      let (j, f, g) = find_device-get_elem? k ds d (ground arith) in (suc j, ground arith, g)
]

close_found :
    {p : ℕ × ℕ} (current : UserCurrentSocket) (w : World)
    → get_device current.current_device current.user_name w.users ≡ defined (some p)
    → on_users
        (λ us.
          Registry.◌>>=◌
            (get_device current.current_device current.user_name us)
            (λ p. defined (p, us)))
        w
      ≡ (done (some p), w)
close_found current w found = rw found refl

close_device_lem :
    (current : UserCurrentSocket) (d : Device) (w : World)
    → IsName current.user_name
    → device_of current.user_name current.current_device w.users ≡ some d
    → close_device current w ≡ (done tt, close_sockets d w)
unfolding close_device get_device
close_device_lem current d w named there = elim (get_user_cases current.user_name w.users) [
  | inl (e, at) ↦ absurd (ground arith)
  | inr (i, ds, e, at, slot) ↦
      let (j, f, g) = find_device-get_elem? current.current_device ds d (ground arith) in
      let f' : find_device current.current_device (devices_at w.users i) ≡ some j = rw slot f in
      let g' : get_elem? (devices_at w.users i) j ≡ some d = rw slot g in
      let found : get_device current.current_device current.user_name w.users
          ≡ defined (some (i, j)) =
        rw named (rw e (rw f' refl)) in
      after _ (close_found current w found) (rw g' refl)
]

drop_user_lem :
    (name : Bytes) (ds : List Device) (w : World)
    → IsName name
    → IsValid w.users
    → devices_of name w.users ≡ some ds
    → drop_user name w ≡ record w { users = remove_user name w.users }
drop_user_lem name ds w named v at = elim (is_device_connected_cases name w.users) [
  | inl (e, r) ↦ absurd (ground arith)
  | inr (ds', e, r) ↦ elim (Bool-cases (any_connected ds)) [
    | inl still ↦
        let c : is_device_connected name w.users ≡ pos 1 = ground arith in
        rw c (
          ap (λ us. record w { users = us })
            (sym (remove_user_lem name w.users ds named at v ∙ rw still refl)))
    | inr gone ↦ let c : is_device_connected name w.users ≡ pos 0 = ground arith in rw c refl
  ]
]

-- What one backup server is sent about an exit.
abbrev pub exit_packet : World → CommandPacket
exit_packet w = record {
  packet_type = cmd;
  command = exit;
  additional_info = w.indeterminate 100;
  padding = w.indeterminate 4;
}

abbrev pub exit_messages : UserCurrentSocket → World → ℤ → List (ℤ × Bytes)
exit_messages current w socket =
    sent_to socket (encode_command (exit_packet w)) ++ sent_to socket (session_bytes current w)

pub length-session_bytes :
    (current : UserCurrentSocket) (w : World) → Steady w → length (session_bytes current w) ≡ 40
length-session_bytes current w h = omega (
  arith,
  length-append (w.indeterminate 32)
      (to_le 4 (int_bits current.current_device) ++ to_le 4 (int_bits current.current_socket)),
  length-append (to_le 4 (int_bits current.current_device))
      (to_le 4 (int_bits current.current_socket)),
  length-to_le 4 (int_bits current.current_device),
  length-to_le 4 (int_bits current.current_socket),
  h.memory 32,
)

forward_exit_lem :
    (current : UserCurrentSocket) (socket : ℤ) (w : World)
    → Steady w
    → forward_exit current socket w ≡ (done tt, having_sent (exit_messages current w socket) w)
unfolding forward_exit
forward_exit_lem current socket w h =
    let first = sent_to socket (encode_command (exit_packet w)) in
    let second = sent_to socket (session_bytes current w) in
    after _
      (send_lem socket (encode_command (exit_packet w)) w h (length-encode_command (exit_packet w)))
      (send_lem socket (session_bytes current w) (having_sent first w)
          (having_sent-Steady first w h) (omega (arith, length-session_bytes current w h))
        ∙ ap (λ u. (done tt, u)) (having_sent_twice first second w))

module _ (current : UserCurrentSocket) where
  -- The table after the exit of the session's device.
  abbrev pub table_left : Users → Users
  table_left us =
      remove_user current.user_name
        (on_device_of current.user_name current.current_device (λ _. free_device) us)

  devices_left :
      (us : Users) (ds : List Device)
      → devices_of current.user_name us ≡ some ds
      → devices_of current.user_name
          (on_device_of current.user_name current.current_device (λ _. free_device) us)
        ≡ some (on_device current.current_device (λ _. free_device) ds)
  devices_left us ds at =
      devices_of-on_user current.user_name current.user_name
        (on_device current.current_device (λ _. free_device)) us
      ∙ rw (same_refl current.user_name, at) refl

  removed :
      {code : ℤ} {us : Users} (w : World)
      → remove_device current.user_name current.current_device w.users ≡ defined (code, us)
      → on_users (remove_device current.user_name current.current_device) w
        ≡ (done code, record w { users = us })
  removed w r = rw r refl

  exit_command_lem :
      (ds : List Device) (d : Device) (w : World)
      → Steady w
      → IsValid w.users
      → IsName current.user_name
      → devices_of current.user_name w.users ≡ some ds
      → device_with current.current_device ds ≡ some d
      → exit_command current w ≡ (
        done tt,
        having_sent
            (concat (map (exit_messages current w) (server_sockets w.servers)))
            (close_sockets d (record w { users = table_left w.users })),
      )
  unfolding exit_command
  exit_command_lem ds d w h v named at there =
      let there' : device_of current.user_name current.current_device w.users ≡ some d =
        ground arith in
      let ds1 = on_device current.current_device (λ _. free_device) ds in
      let w1 : World = close_sockets d (record w {
        users = on_device_of current.user_name current.current_device (λ _. free_device) w.users;
      }) in
      let w2 : World = close_sockets d (record w { users = table_left w.users }) in
      let at1 = devices_left w.users ds at in
      elim (remove_device_cases current.user_name w.users named current.current_device) [
        | inl (e, r) ↦ absurd (ground arith)
        | inr (d', e, r) ↦ after _ (close_device_lem current d w named there') (
            after _ (removed (close_sockets d w) r) (
              rw
                (drop_user_lem current.user_name ds1 w1 named
                  (free_device-IsValid current.user_name current.current_device w.users ds named at
                    v)
                  at1)
                (for_each_server_lem (forward_exit current) (exit_messages current) (λ xs u k. refl)
                  (λ k u steady. forward_exit_lem current k u steady) w.servers w2
                  (record { whole_writes = h.whole_writes; memory = h.memory }))))
      ]

  -- The exit of a session, from the command on: the three sockets of its device are closed, the
  -- device is gone from the table and no other one is, the user is gone with the last device, and
  -- each backup server is sent an exit; then the semaphore is free again and the thread ends.
  -- (With whole writes, both semaphores free, a command that is the exit, a well-formed table and
  -- the device in it, under a name that is not empty and an id that is not -1.)
  pub dispatch-exit :
      (command : CommandPacket) (ds : List Device) (d : Device) (w : World)
      → Steady w
      → Unlocked w
      → IsValid w.users
      → IsName current.user_name
      → IsId current.current_device
      → devices_of current.user_name w.users ≡ some ds
      → device_with current.current_device ds ≡ some d
      → command.command ≡ exit
      → let left = on_device current.current_device (λ _. free_device) ds in
        let vs = table_left w.users in
        (dispatch current command w ≡ (
          exits,
          having_sent
              (concat (map (exit_messages current w) (server_sockets w.servers)))
              (close_sockets d (record w { users = vs })),
        ))
        × IsValid vs
        × Updates current.user_name current.current_device none w.users vs
        × (devices_of current.user_name vs ≡ (if any_connected left then some left else none))
  unfolding dispatch wait_users post_users
  dispatch-exit command ds d w h free v named numbered at there is_exit =
      let us1 = on_device_of current.user_name current.current_device (λ _. free_device) w.users in
      let ds1 = on_device current.current_device (λ _. free_device) ds in
      let v1 : IsValid us1 =
        free_device-IsValid current.user_name current.current_device w.users ds named at v in
      let at1 = devices_left w.users ds at in
      let (valid, kept, gone) = remove_user-refines current.user_name us1 ds1 named v1 at1 in
      let up = free_device-Updates current.user_name current.current_device w.users ds v at in
      let w0 : World = record w { user_lock = 0 } in
      let h0 : Steady w0 = record { whole_writes = h.whole_writes; memory = h.memory } in
      (
        rw (is_exit, free.users_free) (rw (exit_command_lem ds d w0 h0 v named at there) refl),
        valid,
        λ n k hn hk. kept n k hn hk ∙ up n k hn hk,
        gone,
      )
