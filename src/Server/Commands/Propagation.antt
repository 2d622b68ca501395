-- ===== src/Server/Commands/Propagation.antt =====
-- The two critical sections in which `uploadFileCommand` and `deleteFileCommand` pass a change on
-- (server-side/source/Server.cpp:935-964 and 1027-1048).
use mathlib.Core.Path.{fun_ext}
use dropbox_simulator.Common.{ℕ, suc, ◌≡◌, sym, ap, ◌∙◌, ℤ, Bytes, List, ◌++◌, concat, map, some}
use dropbox_simulator.Registry.{Device}
use dropbox_simulator.Registry.Lookup.{devices_of}
use dropbox_simulator.Thread.{done, after, gets, ◌>>=◌, ◌>>◌}
use dropbox_simulator.Server.{
  World, Server, UserCurrentSocket, wait_users, post_users, wait_servers, post_servers,
}
use dropbox_simulator.Server.Backups.{for_each_server, server_sockets}
use dropbox_simulator.Server.Session.Broadcast.{
  Steady, having_sent, having_sent_twice, for_each_server_lem,
}
use dropbox_simulator.Server.Commands.{for_each_peer, devices_of_user}
use dropbox_simulator.Server.Commands.Peers.{peer_sockets, for_each_peer_lem, devices_of_user_lem}

-- Nobody is in a critical section.
pub record Unlocked (w : World) : Type 0 where
  pub users_free : w.user_lock ≡ 1
  pub servers_free : w.server_lock ≡ 1

-- A body of a loop over sockets that only sends.
pub record Sends (body : ℤ → Server (Unit {0})) (messages : World → ℤ → List (ℤ × Bytes))
    : Type 0 where
  pub stable :
      (xs : List (ℤ × Bytes)) (u : World) (k : ℤ) → messages (having_sent xs u) k ≡ messages u k
  pub locks :
      (l m : ℕ) (u : World) → messages (record u { user_lock = l; server_lock = m }) ≡ messages u
  pub sends : (k : ℤ) (u : World) → Steady u → body k u ≡ (done tt, having_sent (messages u k) u)

wait_users_lem :
    (n : ℕ) (w : World) → w.user_lock ≡ suc n → wait_users w ≡ (done tt, record w { user_lock = n })
unfolding wait_users
wait_users_lem n w e = rw e

wait_servers_lem :
    (n : ℕ) (w : World)
    → w.server_lock ≡ suc n
    → wait_servers w ≡ (done tt, record w { server_lock = n })
unfolding wait_servers
wait_servers_lem n w e = rw e

-- The two critical sections that a command passes its change on in.
pub propagate_lem :
    (current : UserCurrentSocket) (peer server : ℤ → Server (Unit {0}))
    (to_peer to_server : World → ℤ → List (ℤ × Bytes)) (ds : List Device) (w : World)
    → Sends peer to_peer
    → Sends server to_server
    → Steady w
    → Unlocked w
    → devices_of current.user_name w.users ≡ some ds
    → (do
      wait_users
      devices ← devices_of_user current.user_name
      for_each_peer current peer devices
      post_users
      wait_servers
      servers ← gets (λ w. w.servers)
      for_each_server server servers
      post_servers)
        w
      ≡ (
        done tt,
        having_sent
            (concat (map (to_peer w) (peer_sockets current ds))
              ++ concat (map (to_server w) (server_sockets w.servers)))
            w,
      )
unfolding post_users post_servers
propagate_lem current peer server to_peer to_server ds w sp ss h free at =
    let w1 : World = record w { user_lock = 0 } in
    let h1 : Steady w1 = record { whole_writes = h.whole_writes; memory = h.memory } in
    let xs = concat (map (to_peer w1) (peer_sockets current ds)) in
    let w2 : World = having_sent xs (record w { user_lock = 1; server_lock = 0 }) in
    let h2 : Steady w2 = record { whole_writes = h.whole_writes; memory = h.memory } in
    let ys = concat (map (to_server w2) (server_sockets w.servers)) in
    let xs' = concat (map (to_peer w) (peer_sockets current ds)) in
    let ys' = concat (map (to_server w) (server_sockets w.servers)) in
    let ex : xs ≡ xs' =
      ap (λ f. concat (map f (peer_sockets current ds))) (sp.locks 0 w.server_lock w) in
    let ey : ys ≡ ys' =
      ap (λ f. concat (map f (server_sockets w.servers)))
        (fun_ext (ss.stable xs (record w { user_lock = 1; server_lock = 0 })) ∙ ss.locks 1 0 w) in
    after _ (wait_users_lem 0 w free.users_free) (
      after _ (devices_of_user_lem current.user_name ds w1 at) (
        after _ (for_each_peer_lem current peer to_peer sp.stable sp.sends ds w1 h1) (
          after _
            (wait_servers_lem 0 (having_sent xs (record w { user_lock = 1 })) free.servers_free)
            (after _ (for_each_server_lem server to_server ss.stable ss.sends w.servers w2 h2) (
              ap (λ u. (done tt, u))
                (having_sent_twice xs ys (record w { user_lock = 1; server_lock = 1 })
                  ∙ ap (λ a. having_sent (a ++ ys) (record w { user_lock = 1; server_lock = 1 })) ex
                  ∙ ap (λ b. having_sent (xs' ++ b) (record w { user_lock = 1; server_lock = 1 }))
                      ey
                  ∙ ap (λ l. having_sent (xs' ++ ys') (record w { user_lock = l; server_lock = 1 }))
                      (sym free.users_free)
                  ∙ ap (λ l. having_sent (xs' ++ ys') (record w { server_lock = l }))
                      (sym free.servers_free)))))))
