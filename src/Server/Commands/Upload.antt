-- ===== src/Server/Commands/Upload.antt =====
-- What an upload stores, answers and passes on (server-side/source/Server.cpp:899-966), when every
-- write takes all that it is given.
use dropbox_simulator.Common.{
  ℕ, suc, ◌≡◌, ◌≤◌, ◌<◌, ◌^◌, refl, ap, ◌∙◌, true, ℤ, Bytes, text, List, [], ◌∷◌, ◌++◌, concat, map,
  length, length-append, drop-replicate, Option, some, arith, if◌then◌else◌, NoNul, same, c_string,
  c_string-append_nul, replicate, take, ltb,
}
use dropbox_simulator.Registry.{Device}
use dropbox_simulator.Registry.Lookup.{devices_of}
use dropbox_simulator.Thread.{done, Answer, got, after}
use dropbox_simulator.Transfer.Loops.{pieces, arriving}
use dropbox_simulator.Wire.{to_le, bits_int}
use dropbox_simulator.Wire.Laws.{from_le-to_le, length-to_le}
use dropbox_simulator.Server.{World, UserCurrentSocket, slash, or_fault, write_ack}
use dropbox_simulator.Server.Backups.{server_sockets}
use dropbox_simulator.Server.Session.Broadcast.{
  Steady, having_sent, having_sent_twice, write_ack_lem,
}
use dropbox_simulator.Server.Commands.{
  upload_file_command, propagate_upload, forward_upload, file_path, payload_size, write_file,
  overlay,
}
use dropbox_simulator.Server.Commands.Propagation.{Unlocked, Sends, propagate_lem}
use dropbox_simulator.Server.Commands.Peers.{
  peer_sockets, upload_messages, forward_upload_lem, having_sent-Steady, facing, read_data_lem,
  read_payload_lem,
}

upload_messages-Sends :
    (info payload : Bytes)
    → length info < 100
    → length payload < 2 ^ 31
    → Sends (forward_upload info payload) (upload_messages info payload)
upload_messages-Sends info payload fits small = record {
  stable = λ xs u k. refl;
  locks = λ l m u. refl;
  sends = λ k u h. forward_upload_lem info payload k u h fits small;
}

low_half : (n : ℕ) → take 4 (to_le 8 n) ≡ to_le 4 n
unfolding to_le
low_half n = refl

-- The low half of an eight-byte number, read as an `int`.
pub payload_size-to_le : (n : ℕ) → n < 2 ^ 31 → payload_size (to_le 8 n) ≡ some n
unfolding payload_size bits_int
payload_size-to_le n h =
    let low : ltb n (2 ^ 31) ≡ true = ground arith in
    rw (length-to_le 8 n, low_half n, from_le-to_le 4 n (omega arith), low)

-- A name that fits, read into the array that was set to zero.
overlay_name :
    (name : Bytes)
    → NoNul name
    → length name < 99
    → c_string (overlay name (replicate 99 0)) ≡ some name
overlay_name name named short =
    let (m, e) = drop-replicate {A = ℕ} 0 (length name) 99 short in
    rw e (c_string-append_nul name (replicate m 0) named)

-- The world with a file in it.
abbrev pub storing : Bytes → Bytes → World → World
storing path content w = record w { files = λ p. if same p path then some content else w.files p }

pub write_file_lem :
    (path content : Bytes) (w : World)
    → w.writable path ≡ true
    → write_file path content w ≡ (done tt, storing path content w)
unfolding write_file
write_file_lem path content w e = rw e

facing-Steady : (answers : List Answer) (w : World) → Steady w → Steady (facing answers w)
facing-Steady answers w h = record { whole_writes = h.whole_writes; memory = h.memory }

pub or_fault_lem :
    {A : Type 0} {o : Option A} {a : A} {w : World} → o ≡ some a → or_fault o w ≡ (done a, w)
or_fault_lem {w = w} e = ap (λ o. or_fault o w) e

module _ (current : UserCurrentSocket) (name payload kind : Bytes) (rest : List Answer) where
  -- What the client writes in an upload: its kind, the size, the name and the payload, which
  -- the kernel hands over one by one.
  abbrev pub uploading : List Answer
  uploading =
      got kind
      ∷ got (to_le 8 (length payload))
      ∷ got name
      ∷ (arriving (pieces (suc (length payload)) payload) ++ rest)

  abbrev pub path : Bytes
  path = file_path current.user_name name

  abbrev pub ack : List (ℤ × Bytes)
  ack = (current.current_socket, text "ack") ∷ []

  -- What is written in the course of an upload, in order: four acknowledgements, then the
  -- user's other devices, then the backup servers.
  abbrev pub upload_outbox : List Device → World → List (ℤ × Bytes)
  upload_outbox ds w =
      (ack ++ (ack ++ (ack ++ ack)))
      ++ (concat (map (upload_messages name payload w) (peer_sockets current ds))
          ++ concat (map (upload_messages path payload w) (server_sockets w.servers)))

  acked :
      (w : World)
      → Steady w
      → write_ack current.current_socket "ack" w ≡ (done tt, having_sent ack w)
  acked w h = write_ack_lem current.current_socket "ack" w h

  shorter : length path < 100 → length name < 99
  shorter h = ground (arith, h, length-append current.user_name (slash ++ name))

  -- What is read, stored and acknowledged, up to the first critical section.
  pub upload_received :
      (w : World)
      → Steady w
      → length kind ≤ 8
      → NoNul name
      → length path < 100
      → 0 < length payload
      → length payload < 2 ^ 31
      → w.writable path ≡ true
      → upload_file_command current (facing uploading w)
        ≡ propagate_upload current name payload
            (having_sent (ack ++ (ack ++ (ack ++ ack))) (storing path payload (facing rest w)))
  unfolding upload_file_command
  upload_received w h k named short some_bytes fits writable =
      let size = payload_size-to_le (length payload) fits in
      let sized : length (to_le 8 (length payload)) ≤ 8 =
        ground (arith, length-to_le 8 (length payload)) in
      let whole_name = overlay_name name named (shorter short) in
      let w1 = having_sent ack w in
      let w2 = having_sent ack w1 in
      let w3 = having_sent ack w2 in
      let h1 = having_sent-Steady ack w h in
      let h2 = having_sent-Steady ack w1 h1 in
      let h3 = having_sent-Steady ack w2 h2 in
      let body = arriving (pieces (suc (length payload)) payload) ++ rest in
      let name_next = got name ∷ body in
      after _ (read_data_lem 7 kind _ w k) (
        after _ (acked _ (facing-Steady (got (to_le 8 (length payload)) ∷ name_next) w h)) (
          after _ (read_data_lem 7 (to_le 8 (length payload)) _ w1 sized) (
            after _ (acked _ (facing-Steady name_next w1 h1)) (
              after _ (read_data_lem 99 name _ w2 (omega (arith, shorter short))) (
                after _ (acked _ (facing-Steady body w2 h2)) (
                  after _ (or_fault_lem size) (
                    after _ (read_payload_lem payload rest w3 some_bytes fits) (
                      after _ (acked _ (facing-Steady rest w3 h3)) (
                        after _ (or_fault_lem whole_name) (
                          after _
                            (write_file_lem path payload (facing rest (having_sent ack w3))
                              writable)
                            (ap
                              (λ u.
                                propagate_upload current name payload
                                  (storing path payload (facing rest u)))
                              (having_sent_twice ack ack w2
                                ∙ having_sent_twice ack (ack ++ ack) w1
                                ∙ having_sent_twice ack (ack ++ (ack ++ ack)) w))))))))))))

  -- An upload of a file that is not empty stores it at the user's path, acknowledges each of its
  -- four parts, then sends the file with its name to the third socket of each other device of the
  -- user, and with its path to each backup server, and changes nothing else: both semaphores are
  -- free again. (With whole writes, both semaphores free, the user in the table, a kind of at most
  -- 8 bytes, a name without a NUL, a path of less than 100 bytes that the file system accepts, and
  -- a payload of less than 2 GB.)
  pub upload_file_command_lem :
      (ds : List Device) (w : World)
      → Steady w
      → Unlocked w
      → devices_of current.user_name w.users ≡ some ds
      → length kind ≤ 8
      → NoNul name
      → length path < 100
      → 0 < length payload
      → length payload < 2 ^ 31
      → w.writable path ≡ true
      → upload_file_command current (facing uploading w)
        ≡ (done tt, having_sent (upload_outbox ds w) (storing path payload (facing rest w)))
  unfolding propagate_upload
  upload_file_command_lem ds w h free at k named short some_bytes fits writable =
      let acks = ack ++ (ack ++ (ack ++ ack)) in
      let stored = having_sent acks (storing path payload (facing rest w)) in
      let passed_on =
        concat (map (upload_messages name payload w) (peer_sockets current ds))
        ++ concat (map (upload_messages path payload w) (server_sockets w.servers)) in
      upload_received w h k named short some_bytes fits writable
      ∙ propagate_lem current (forward_upload name payload) (forward_upload path payload)
          (upload_messages name payload) (upload_messages path payload) ds stored
          (upload_messages-Sends name payload (omega (arith, shorter short)) fits)
          (upload_messages-Sends path payload short fits)
          (record { whole_writes = h.whole_writes; memory = h.memory })
          (record { users_free = free.users_free; servers_free = free.servers_free }) at
      ∙ ap (λ u. (done tt, u))
          (having_sent_twice acks passed_on (storing path payload (facing rest w)))
