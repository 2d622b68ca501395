-- ===== src/Server/Commands/Peers.antt =====
-- What a command sends to the user's other devices, and what the calls it is made of do, when
-- every write takes all that it is given (server-side/source/Server.cpp:528-569 and 935-962).
use mathlib.Core.Path.{fun_ext}
use mathlib.Core.Option
use dropbox_simulator.Common.{
  ℕ, suc, ◌≡◌, ◌≤◌, ◌<◌, ◌^◌, sym, ap, ◌∙◌, true, ℤ, Bytes, List, [], ◌∷◌, ◌++◌, append-nil, concat,
  map, length, leb, take_all, some, arith, Bool-cases, inl, inr, if◌then◌else◌,
}
use dropbox_simulator.Registry.{Device, get_user, devices_at}
use dropbox_simulator.Registry.Lookup.{devices_of, get_user-devices_of}
use dropbox_simulator.Thread.{done, read, write, Answer, got, after}
use dropbox_simulator.Transfer.{read_large_payload}
use dropbox_simulator.Transfer.Loops.{pieces, arriving, read_large_payload-pieces}
use dropbox_simulator.Wire.Laws.{length-encode_command}
use dropbox_simulator.Wire.{encode_command, to_le}
use dropbox_simulator.Server.{World, Server, UserCurrentSocket, on_net}
use dropbox_simulator.Server.Session.Broadcast.{
  Steady, having_sent, having_sent_twice, sent_to, send_lem, command_packet, new_command_lem,
}
use dropbox_simulator.Server.Commands.{
  read_data, send_data, is_peer, for_each_peer, devices_of_user, forward_upload, upload,
}

-- The third sockets of the user's other devices, in the order of the table.
unfoldable pub peer_sockets : UserCurrentSocket → List Device → List ℤ
peer_sockets current [] = []
peer_sockets current (d ∷ ds) =
    if is_peer current d then d.socket3 ∷ peer_sockets current ds else peer_sockets current ds

-- The same world, with other answers to come.
abbrev pub facing : List Answer → World → World
facing answers w = record w { net = record w.net { inbox = answers } }

pub having_sent-Steady : (xs : List (ℤ × Bytes)) (w : World) → Steady w → Steady (having_sent xs w)
having_sent-Steady xs w h = record { whole_writes = h.whole_writes; memory = h.memory }

pub send_data_lem :
    (socket : ℤ) (bs : Bytes) (w : World)
    → Steady w
    → send_data socket bs w ≡ (done tt, having_sent ((socket, bs) ∷ []) w)
unfolding send_data on_net write
send_data_lem socket bs w h = ground (arith, h)

pub read_data_lem :
    (n : ℕ) (bs : Bytes) (rest : List Answer) (w : World)
    → length bs ≤ suc n
    → read_data (suc n) (facing (got bs ∷ rest) w) ≡ (done bs, facing rest w)
unfolding read_data on_net read
read_data_lem n bs rest w h =
    let fits : leb (length bs) (suc n) ≡ true = ground arith in rw (take_all (suc n) bs h, fits)

pub read_payload_lem :
    (payload : Bytes) (rest : List Answer) (w : World)
    → 0 < length payload
    → length payload < 2 ^ 31
    → on_net
        (read_large_payload (length payload))
        (facing (arriving (pieces (suc (length payload)) payload) ++ rest) w)
      ≡ (done payload, facing rest w)
unfolding on_net
read_payload_lem payload rest w h small = rw (read_large_payload-pieces payload rest w.net h small)

pub devices_of_user_lem :
    (user : Bytes) (ds : List Device) (w : World)
    → devices_of user w.users ≡ some ds
    → devices_of_user user w ≡ (done ds, w)
unfolding devices_of_user
devices_of_user_lem user ds w e =
    let found : Option.map (devices_at w.users) (get_user user w.users) ≡ some ds =
      sym (get_user-devices_of user w.users) ∙ e in
    rw found

-- A loop over the user's other devices whose body only sends.
pub for_each_peer_lem :
    (current : UserCurrentSocket) (body : ℤ → Server (Unit {0}))
    (messages : World → ℤ → List (ℤ × Bytes))
    → ((xs : List (ℤ × Bytes)) (u : World) (k : ℤ) → messages (having_sent xs u) k ≡ messages u k)
    → ((k : ℤ) (u : World) → Steady u → body k u ≡ (done tt, having_sent (messages u k) u))
    → (ds : List Device) (w : World) → Steady w
    → for_each_peer current body ds w
      ≡ (done tt, having_sent (concat (map (messages w) (peer_sockets current ds))) w)
unfolding for_each_peer peer_sockets
for_each_peer_lem current body messages stable sends [] w h =
    ap (λ o. (done tt, record w { net = record w.net { outbox = o } }))
      (sym (append-nil w.net.outbox))
for_each_peer_lem current body messages stable sends (d ∷ ds) w h =
    elim (Bool-cases (is_peer current d)) [
      | inl peer ↦
          let sent = messages w d.socket3 in
          rw peer (
            rw (sends d.socket3 w h) (
              for_each_peer_lem current body messages stable sends ds (having_sent sent w)
                (record { whole_writes = h.whole_writes; memory = h.memory })
              ∙ rw (fun_ext (stable sent w)) (
                  ap (λ u. (done tt, u))
                    (having_sent_twice sent (concat (map (messages w) (peer_sockets current ds)))
                      w))))
      | inr other ↦ rw other (for_each_peer_lem current body messages stable sends ds w h)
    ]

-- What one socket is sent about an upload.
abbrev pub upload_messages : Bytes → Bytes → World → ℤ → List (ℤ × Bytes)
upload_messages info payload w socket =
    sent_to socket (encode_command (command_packet w upload info))
    ++ (((socket, to_le 8 (length payload)) ∷ []) ++ sent_to socket payload)

pub forward_upload_lem :
    (info payload : Bytes) (socket : ℤ) (w : World)
    → Steady w
    → length info < 100
    → length payload < 2 ^ 31
    → forward_upload info payload socket w
      ≡ (done tt, having_sent (upload_messages info payload w socket) w)
unfolding forward_upload
forward_upload_lem info payload socket w h fits small =
    let first = sent_to socket (encode_command (command_packet w upload info)) in
    let size : List (ℤ × Bytes) = (socket, to_le 8 (length payload)) ∷ [] in
    let h1 = having_sent-Steady first w h in
    let h2 = having_sent-Steady size (having_sent first w) h1 in
    after _ (new_command_lem upload info w h fits) (
      after _
        (send_lem socket (encode_command (command_packet w upload info)) w h
          (length-encode_command (command_packet w upload info)))
        (after _ (send_data_lem socket (to_le 8 (length payload)) (having_sent first w) h1) (
          send_lem socket payload (having_sent size (having_sent first w)) h2 small
          ∙ ap (λ u. (done tt, u))
              (having_sent_twice size (sent_to socket payload) (having_sent first w)
                ∙ having_sent_twice first (size ++ sent_to socket payload) w))))
