-- ===== src/Server/Replica/Joining.antt =====
-- A backup server from its greeting on, together with the primary server
-- (server-side/source/Server.cpp:16-36, 124-171 and 283-295).
use dropbox_simulator.Common.{
  ℕ, ◌+◌, ◌≡◌, ◌≢◌, ◌∙◌, refl, ap, subst, true, false, ℤ, int_eq, Bytes, text, List, [], ◌∷◌, ◌++◌,
  append_assoc, ◌==◌, inl, inr,
}
use dropbox_simulator.Registry.{unused}
use dropbox_simulator.Registry.Invariant.{IsValid}
use dropbox_simulator.Wire.Laws.{length-encode_connection}
use dropbox_simulator.Thread.{Answer, done, after, got, read}
use dropbox_simulator.Wire.{Connection, encode_connection}
use dropbox_simulator.Wire.Laws.{ConnectionFits, decode_connection-encode_connection}
use dropbox_simulator.Server.{World, Spawn, server_conn, wait_servers, post_servers, on_net}
use dropbox_simulator.Server.Backups.{
  insert_server, insert_server_lem, server_sockets, free_servers,
}
use dropbox_simulator.Server.Session.{mediator_thread, serve_connection}
use dropbox_simulator.Server.Session.Broadcast.{
  Steady, having_sent, sent_to, send_lem, write_ack_lem,
}
use dropbox_simulator.Server.Commands.{wait_for_socket_ack}
use dropbox_simulator.Server.Commands.Peers.{facing}
use dropbox_simulator.Server.Commands.Propagation.{Unlocked}
use dropbox_simulator.Server.Commands.Serving.{delivered}
use dropbox_simulator.Server.Replica.{
  handle_one_secondary_server, serve_primary_loop, second_server_processing, greeting,
}
use dropbox_simulator.Server.Replica.Connections.{read_connection_lem}
use dropbox_simulator.Server.Replica.Runs.{written_to, Others, HasBackup, IsPrimary, Mirrors, Runs}
use dropbox_simulator.Server.Replica.Runs.Messages.{written_to-append, written_to_own}
use dropbox_simulator.Server.Replica.Runs.Mirroring.{serve_primary_loop-Mirrors}

-- The primary, with the new backup in its table and its thread started.
abbrev pub registered : ℤ → ℤ → World → World
registered id k w = record w {
  servers = (insert_server id k w.servers).1;
  server_lock = 1;
  spawned = Spawn.secondary id k ∷ w.spawned;
}

mediator_thread-registered :
    (k s : ℤ) (c : Connection) (rest : List Answer) (w : World)
    → ConnectionFits c
    → (c.packet_type == server_conn) ≡ true
    → w.server_lock ≡ 1
    → mediator_thread k (facing (delivered (sent_to s (encode_connection c)) ++ rest) w)
      ≡ (done tt, registered c.device k (facing rest w))
unfolding mediator_thread serve_connection wait_servers post_servers
mediator_thread-registered k s c rest w in_range is_server free =
    after _ (read_connection_lem c s rest w in_range)
      (rw (decode_connection-encode_connection c in_range).0 (rw (is_server, free) refl))

Others-append : (k : ℤ) (xs ys : List ℤ) → Others k (xs ++ ys) → Others k xs × Others k ys
Others-append k [] ys h = (tt, h)
Others-append k (x ∷ xs) ys (e, h) = let (p, q) = Others-append k xs ys h in ((e, p), q)

registered-HasBackup :
    (id k : ℤ) (w : World)
    → int_eq id unused ≡ false
    → free_servers w.servers ≢ 0
    → Others k (server_sockets w.servers)
    → HasBackup k (registered id k w)
registered-HasBackup id k w is_id room others = elim (insert_server_lem id k w.servers is_id) [
  | inl (full, _, _) ↦ absurd (room full)
  | inr (front, back, code, free, were, are, _) ↦
      let (p, q) = Others-append k front back (subst (Others k) were others) in
      (front, back, are, p, q)
]

-- The "ack" of the primary, read in one piece.
wait_for_socket_ack_lem :
    (rest : List Answer) (w : World)
    → wait_for_socket_ack (facing (got (text "ack") ∷ rest) w) ≡ (done tt, facing rest w)
unfolding wait_for_socket_ack on_net read
wait_for_socket_ack_lem rest w = refl

second_server_processing_lem :
    (rounds : ℕ) (id s : ℤ) (rest : List Answer) (b : World)
    → Steady b
    → second_server_processing rounds id s (facing (got (text "ack") ∷ rest) b)
      ≡ serve_primary_loop rounds (
          facing rest (having_sent (sent_to s (encode_connection (greeting id b.indeterminate))) b))
unfolding second_server_processing
second_server_processing_lem rounds id s rest b h =
    let c = greeting id b.indeterminate in
    after _
      (send_lem s (encode_connection c) (facing (got (text "ack") ∷ rest) b)
        (record { whole_writes = h.whole_writes; memory = h.memory }) (length-encode_connection c))
      (after _ (wait_for_socket_ack_lem rest (having_sent (sent_to s (encode_connection c)) b))
        refl)

-- The primary, once it has read the greeting of a backup server on its socket `k` and has answered.
abbrev pub joined : ℤ → List Answer → World → World
joined k greeted w = (handle_one_secondary_server k (mediator_thread k (facing greeted w)).1).1

pub joined_lem :
    (k s : ℤ) (c : Connection) (rest : List Answer) (w : World)
    → Steady w
    → ConnectionFits c
    → (c.packet_type == server_conn) ≡ true
    → w.server_lock ≡ 1
    → joined k (delivered (sent_to s (encode_connection c)) ++ rest) w
      ≡ having_sent ((k, text "ack") ∷ []) (registered c.device k (facing rest w))
unfolding handle_one_secondary_server
joined_lem k s c rest w h in_range is_server free =
    ap (λ r. (handle_one_secondary_server k r.1).1)
      (mediator_thread-registered k s c rest w in_range is_server free)
    ∙ ap (λ r. r.1)
        (write_ack_lem k "ack" (registered c.device k (facing rest w))
          (record { whole_writes = h.whole_writes; memory = h.memory }))

-- A backup server from its start: `second_server_processing` of a backup `b` that has all that the
-- primary `w` has greets the primary, whose `mediatorThread` puts it into the table of servers and
-- whose `handle_one_secondary_server` answers. After that the primary serves `n` clients, one
-- after the other; the backup reads what the primary wrote to its socket `k`, and after `n` rounds
-- of its loop, whatever comes next, it again has the same users with the same devices in the same
-- slots, the same files and the same directories as the primary. (With whole writes on both sides,
-- both semaphores free, a well-formed table and a free slot for a server at the primary, an id
-- that is not -1, a greeting whose members are in range, and a socket `k` that is that of no other
-- server and used for no client; the clients as in `Runs`: connections that are let in, of users
-- whose names have less than 39 bytes, and uploads and deletions by users who are there, of files
-- with paths of less than 100 bytes, the uploads as `uploadFileCommand` takes them, to paths that
-- both accept.)
pub second_server_processing-Mirrors :
    {n : ℕ} {u : World} (k s id : ℤ) (w b : World) (answers rest : List Answer) (rounds : ℕ)
    → Steady w
    → Unlocked w
    → IsValid w.users
    → free_servers w.servers ≢ 0
    → Others k (server_sockets w.servers)
    → int_eq id unused ≡ false
    → Steady b
    → ConnectionFits (greeting id b.indeterminate)
    → Mirrors w b
    → Runs k n
        (joined k
          (delivered (sent_to s (encode_connection (greeting id b.indeterminate))) ++ answers)
          w)
        u
    → (ms : List (ℤ × Bytes)) × (c : World) × (u.net.outbox ≡ w.net.outbox ++ ms)
      × (second_server_processing (n + rounds) id s (facing (delivered (written_to k ms) ++ rest) b)
          ≡ serve_primary_loop rounds (facing rest c))
      × Mirrors u c
second_server_processing-Mirrors {n} {u} k s id w b answers rest rounds h free valid room others
      is_id hb in_range mirrors runs =
    let c = greeting id b.indeterminate in
    let answered : List (ℤ × Bytes) = (k, text "ack") ∷ [] in
    let p : World = having_sent answered (registered id k (facing answers w)) in
    let joins = joined_lem k s c answers w h in_range refl free.servers_free in
    let primary : IsPrimary k p = record {
      steady = record { whole_writes = h.whole_writes; memory = h.memory };
      unlocked = record { users_free = free.users_free; servers_free = refl };
      table_IsValid = valid;
      has_backup = registered-HasBackup id k w is_id room others;
    } in
    let greeted : World = having_sent (sent_to s (encode_connection c)) b in
    let alike : Mirrors p greeted = record {
      same_tables = mirrors.same_tables;
      same_files = mirrors.same_files;
      same_dirs = mirrors.same_dirs;
      same_writable = mirrors.same_writable;
      backup_IsValid = mirrors.backup_IsValid;
    } in
    let (ms, v, out, r, alike') =
      serve_primary_loop-Mirrors greeted rounds rest (subst (λ x. Runs k n x u) joins runs) primary
        alike in
    (
      answered ++ ms,
      v,
      out ∙ append_assoc w.net.outbox answered ms,
      rw (written_to-append k answered ms, written_to_own k answered (refl, tt))
          (second_server_processing_lem (n + rounds) id s (delivered (written_to k ms) ++ rest) b hb
            ∙ r),
      alike',
    )
