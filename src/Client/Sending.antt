-- ===== src/Client/Sending.antt =====
-- The calls that the client is made of (client-side/source/Client.cpp:110-161), when every write
-- takes all that it is given.
use Prim.Native.String.{String}
use dropbox_simulator.Common.{
  ℕ, suc, ◌≡◌, ◌≤◌, ◌<◌, refl, ap, ◌∙◌, true, ℤ, Bytes, text, List, [], ◌∷◌, ◌++◌, append_assoc,
  length, length-append, length-drop, drop, take_all, ◌^◌, leb, ltb, Option, some, arith,
}
use dropbox_simulator.Thread.{done, Answer, got, after, read, write}
use dropbox_simulator.Transfer.Loops.{send_large_payload-whole}
use dropbox_simulator.Wire.{CommandPacket, encode_command, strcpy}
use dropbox_simulator.Wire.Laws.{CommandFits, length-encode_command}
use dropbox_simulator.Server.{cmd}
use dropbox_simulator.Server.Commands.{overlay}
use dropbox_simulator.Server.Session.Broadcast.{sent_to}
use dropbox_simulator.Client.{
  Local, on_net, or_fault, send, send_data, wait_for_socket_ack, read_data, write_ack, request,
  named_command,
}

-- Writes are whole, and `n` bytes of memory are `n` bytes.
pub record Reliable (c : Local) : Type 0 where
  pub whole_writes : c.net.accepts ≡ []
  pub memory : (n : ℕ) → length (c.indeterminate n) ≡ n

-- The same client, with more written, and with other answers to come.
abbrev pub writing : List (ℤ × Bytes) → Local → Local
writing xs c = record c { net = record c.net { outbox = c.net.outbox ++ xs } }

abbrev pub meeting : List Answer → Local → Local
meeting answers c = record c { net = record c.net { inbox = answers } }

pub writing_twice :
    (xs ys : List (ℤ × Bytes)) (c : Local) → writing ys (writing xs c) ≡ writing (xs ++ ys) c
writing_twice xs ys c =
    ap (λ o. record c { net = record c.net { outbox = o } }) (append_assoc c.net.outbox xs ys)

pub send_lem :
    (sockfd : ℤ) (payload : Bytes) (c : Local)
    → c.net.accepts ≡ []
    → length payload < 2 ^ 31
    → send sockfd payload c ≡ (done tt, writing (sent_to sockfd payload) c)
unfolding send on_net
send_lem sockfd payload c h small =
    let (e, w) = send_large_payload-whole sockfd payload c.net h small in rw e

pub send_data_lem :
    (sockfd : ℤ) (bs : Bytes) (c : Local)
    → c.net.accepts ≡ []
    → send_data sockfd bs c ≡ (done tt, writing ((sockfd, bs) ∷ []) c)
unfolding send_data on_net write
send_data_lem sockfd bs c h = rw h

pub write_ack_lem :
    (sockfd : ℤ) (message : String) (c : Local)
    → c.net.accepts ≡ []
    → write_ack sockfd message c ≡ (done tt, writing ((sockfd, text message) ∷ []) c)
unfolding write_ack on_net write
write_ack_lem sockfd message c h = rw h

pub read_data_lem :
    (n : ℕ) (bs old : Bytes) (rest : List Answer) (c : Local)
    → length bs ≤ suc n
    → read_data (suc n) old (meeting (got bs ∷ rest) c) ≡ (done (overlay bs old), meeting rest c)
unfolding read_data on_net read
read_data_lem n bs old rest c h =
    let fits : leb (length bs) (suc n) ≡ true = ground arith in rw (take_all (suc n) bs h, fits)

pub wait_for_socket_ack_lem :
    (bs : Bytes) (rest : List Answer) (c : Local)
    → length bs ≤ 8
    → wait_for_socket_ack (meeting (got bs ∷ rest) c) ≡ (done tt, meeting rest c)
unfolding wait_for_socket_ack on_net read
wait_for_socket_ack_lem bs rest c h =
    let fits : leb (length bs) 8 ≡ true = ground arith in rw fits refl

pub or_fault_lem :
    {A : Type 0} {o : Option A} {a : A} {c : Local} → o ≡ some a → or_fault o c ≡ (done a, c)
or_fault_lem {c = c} e = ap (λ o. or_fault o c) e

pub request_lem :
    (sockfd : ℤ) (command : CommandPacket) (bs : Bytes) (rest : List Answer) (c : Local)
    → c.net.accepts ≡ []
    → length bs ≤ 8
    → request sockfd command (meeting (got bs ∷ rest) c)
      ≡ (done tt, writing (sent_to sockfd (encode_command command)) (meeting rest c))
unfolding request
request_lem sockfd command bs rest c h short =
    after _
      (send_lem sockfd (encode_command command) (meeting (got bs ∷ rest) c) h
        (length-encode_command command))
      (wait_for_socket_ack_lem bs rest (writing (sent_to sockfd (encode_command command)) c) short)

-- The packet of a command with a name that fits.
abbrev pub named_packet : Local → ℕ → Bytes → CommandPacket
named_packet c code filename = record {
  packet_type = cmd;
  command = code;
  additional_info = filename ++ (0 ∷ drop (suc (length filename)) (c.indeterminate 100));
  padding = c.indeterminate 4;
}

pub named_command_lem :
    (code : ℕ) (filename : Bytes) (c : Local)
    → length (c.indeterminate 100) ≡ 100
    → length filename < 100
    → named_command code filename c ≡ (done (named_packet c code filename), c)
unfolding named_command strcpy
named_command_lem code filename c h fits =
    let room : ltb (length filename) (length (c.indeterminate 100)) ≡ true = ground (arith, h) in
    rw room

-- The packet of a command without one.
abbrev pub bare_packet : Local → ℕ → CommandPacket
bare_packet c code = record {
  packet_type = cmd;
  command = code;
  additional_info = c.indeterminate 100;
  padding = c.indeterminate 4;
}

-- Both are of the size that travels.
pub bare_packet-CommandFits :
    (c : Local) (code : ℕ) → Reliable c → code < 2 ^ 64 → CommandFits (bare_packet c code)
bare_packet-CommandFits c code h small = record {
  type_fits = omega arith;
  command_fits = small;
  info_fits = h.memory 100;
  padding_fits = h.memory 4;
}

pub named_packet-CommandFits :
    (c : Local) (code : ℕ) (name : Bytes)
    → Reliable c
    → code < 2 ^ 64
    → length name < 100
    → CommandFits (named_packet c code name)
named_packet-CommandFits c code name h small short = record {
  type_fits = omega arith;
  command_fits = small;
  info_fits =
      length-append name (0 ∷ drop (suc (length name)) (c.indeterminate 100))
      ∙ ground (arith, length-drop (suc (length name)) (c.indeterminate 100), h.memory 100);
  padding_fits = h.memory 4;
}
