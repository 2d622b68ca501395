-- ===== src/Client/Requests.antt =====
-- What the requests of a session make the client write (client-side/source/Client.cpp:57-109,
-- 193-206 and 247-256), where each wait finds an acknowledgement.
use dropbox_simulator.Common.{
  ℕ, suc, ◌+◌, ◌≡◌, ◌<◌, ◌^◌, ◌∙◌, ap, sym, append_assoc, true, false, ◌==◌, ℤ, Bytes, text, List,
  [], ◌∷◌, ◌++◌, length, length-append, replicate, All, NoNul, same, if◌then◌else◌, Option, none,
  some, arith,
}
use dropbox_simulator.Thread.{done, Answer, got, after, ◌>>◌}
use dropbox_simulator.Wire.{encode_command}
use dropbox_simulator.Server.{World, UserCurrentSocket, slash}
use dropbox_simulator.Server.Session.Broadcast.{sent_to}
use dropbox_simulator.Server.Commands.{delete, list_server, exit, file_path}
use dropbox_simulator.Client.{
  Local, Client, send_file, delete_file, list_server_files, send_exit_command, bare_command,
}
use dropbox_simulator.Client.Sending.{
  Reliable, writing, writing_twice, meeting, named_packet, bare_packet, request_lem,
}
use dropbox_simulator.Client.Uploads.{upload_stream, send_file_lem}
use dropbox_simulator.Client.Downloads.{delete_file_lem}

-- What a client asks for.
pub data Request : Type 0 where
  uploads : Bytes → Bytes → Request
  deletes : Bytes → Request
  lists : Request

module _ (current : UserCurrentSocket) (sockfd : ℤ) (c : Local) where
  -- What the client writes for a request.
  abbrev pub written_for : Request → List (ℤ × Bytes)
  written_for (uploads name content) = upload_stream sockfd name content c
  written_for (deletes name) = sent_to sockfd (encode_command (named_packet c delete name))
  written_for lists = sent_to sockfd (encode_command (bare_packet c list_server))

  abbrev pub written_for_all : List Request → List (ℤ × Bytes)
  written_for_all [] = []
  written_for_all (r ∷ rs) = written_for r ++ written_for_all rs

  -- The files of the server after a request, and after all of them.
  abbrev pub files_after : Request → (Bytes → Option Bytes) → Bytes → Option Bytes
  files_after (uploads name content) files q =
      if same q (file_path current.user_name name) then some content else files q
  files_after (deletes name) files q =
      if same q (file_path current.user_name name) then none else files q
  files_after lists files q = files q

  abbrev pub files_after_all : List Request → (Bytes → Option Bytes) → Bytes → Option Bytes
  files_after_all [] files = files
  files_after_all (r ∷ rs) files = files_after_all rs (files_after r files)

  -- A name of a file in the directory of the user itself.
  abbrev pub IsPlain : Bytes → Type 0
  IsPlain = All (λ b. (b == 0x2f) ≡ false)

  -- A request that the server takes.
  abbrev pub IsTaken : World → Request → Type 0
  IsTaken w (uploads name content) =
      IsPlain name
      × NoNul name
      × (length (file_path current.user_name name) < 100)
      × (length name < length content)
      × (length content < 2 ^ 31)
      × (w.writable (file_path current.user_name name) ≡ true)
  IsTaken w (deletes name) =
      IsPlain name × NoNul name × (length (file_path current.user_name name) < 100)
  IsTaken w lists = Unit

-- What the client does for a request.
abbrev pub ask : ℤ → Request → Client (Unit {0})
ask sockfd (uploads name content) = send_file sockfd name content
ask sockfd (deletes name) = delete_file sockfd name
ask sockfd lists = list_server_files sockfd

-- The requests, and then the exit.
unfoldable pub client_session : ℤ → List Request → Client (Unit {0})
client_session sockfd [] = send_exit_command sockfd
client_session sockfd (r ∷ rs) = ask sockfd r >> client_session sockfd rs

-- The acknowledgements that the client waits for, and those that the server writes to it: one for
-- each command, and for an upload those of the kind, the size, the name and the content, of which
-- the client does not wait for the last.
abbrev pub waits : Request → ℕ
waits (uploads name content) = 4
waits (deletes name) = 1
waits lists = 1

abbrev pub waits_in_all : List Request → ℕ
waits_in_all [] = 1
waits_in_all (r ∷ rs) = waits r + waits_in_all rs

abbrev pub uploads_in : List Request → ℕ
uploads_in [] = 0
uploads_in (uploads name content ∷ rs) = suc (uploads_in rs)
uploads_in (deletes name ∷ rs) = uploads_in rs
uploads_in (lists ∷ rs) = uploads_in rs

abbrev pub acks : ℕ → List Answer
acks n = replicate n (got (text "ack"))

module _ (current : UserCurrentSocket) (sockfd : ℤ) where
  ask_lem :
      (r : Request) (n : ℕ) (w : World) (c : Local)
      → Reliable c
      → IsTaken current sockfd c w r
      → ask sockfd r (meeting (acks (waits r + n)) c)
        ≡ (done tt, writing (written_for current sockfd c r) (meeting (acks n) c))
  unfolding list_server_files bare_command
  ask_lem (uploads name content) n w c h (plain, named, short, longer, small, writable) =
      let e : 4 + n ≡ suc (suc (suc (suc n))) = omega arith in
      rw e (
        send_file_lem sockfd name content (text "ack") (text "ack") (text "ack") (text "ack")
          (acks n) c h named longer (omega arith) (omega arith) (omega arith) (omega arith) small)
  ask_lem (deletes name) n w c h (plain, named, short) =
      let e : 1 + n ≡ suc n = omega arith in
      rw e (
        delete_file_lem sockfd name (text "ack") (acks n) c h
          (ground (arith, length-append current.user_name (slash ++ name))) (omega arith))
  ask_lem lists n w c h ok =
      let e : 1 + n ≡ suc n = omega arith in
      rw e (
        request_lem sockfd (bare_packet c list_server) (text "ack") (acks n) c h.whole_writes
          (omega arith))

  -- What the client writes in the whole session.
  pub client_session_lem :
      (rs : List Request) (n : ℕ) (w : World) (c : Local)
      → Reliable c
      → All (IsTaken current sockfd c w) rs
      → let leaving = sent_to sockfd (encode_command (bare_packet c exit)) in
        client_session sockfd rs (meeting (acks (waits_in_all rs + n)) c)
        ≡ (done tt, writing (written_for_all current sockfd c rs ++ leaving) (meeting (acks n) c))
  unfolding client_session send_exit_command bare_command
  client_session_lem [] n w c h ok =
      let e : 1 + n ≡ suc n = omega arith in
      rw e (
        request_lem sockfd (bare_packet c exit) (text "ack") (acks n) c h.whole_writes
          (omega arith))
  client_session_lem (r ∷ rs) n w c h (ok, oks) =
      let leaving = sent_to sockfd (encode_command (bare_packet c exit)) in
      let first = written_for current sockfd c r in
      let others = written_for_all current sockfd c rs ++ leaving in
      let e : waits r + waits_in_all rs + n ≡ waits r + (waits_in_all rs + n) = omega arith in
      rw e (
        after _ (ask_lem r (waits_in_all rs + n) w c h ok) (
          client_session_lem rs n w (writing first c)
            (record { whole_writes = h.whole_writes; memory = h.memory }) oks
          ∙ ap (λ u. (done tt, meeting (acks n) u)) (writing_twice first others c)
          ∙ ap (λ o. (done tt, writing o (meeting (acks n) c)))
              (append_regroup first (written_for_all current sockfd c rs) leaving)))
    where
      append_regroup : (x y z : List (ℤ × Bytes)) → x ++ (y ++ z) ≡ (x ++ y) ++ z
      append_regroup x y z = sym (append_assoc x y z)
