-- ===== src/Tests/Commands.antt =====
-- Commands of a session of Ana's phone, on a server whose table is `busy`.
use dropbox_simulator.Common.{
  ℕ, ◌≡◌, refl, ◌++◌, pos, Bytes, text, List, [], ◌∷◌, replicate, some, same,
}
use dropbox_simulator.Registry.{Device}
use dropbox_simulator.Registry.Lookup.{devices_of}
use dropbox_simulator.Wire.{CommandPacket}
use dropbox_simulator.Server.{UserCurrentSocket}
use dropbox_simulator.Server.Commands.{file_path}
use dropbox_simulator.Server.Commands.Peers.{peer_sockets}
use dropbox_simulator.Server.Commands.Propagation.{Unlocked}
use dropbox_simulator.Tests.Tables.{ana, phone, laptop, busy}
use dropbox_simulator.Tests.Sessions.{busy_world}

abbrev pub session : UserCurrentSocket
session = record { user_name = ana; current_device = pos 7; current_socket = pos 4 }

abbrev pub both : List Device
both = phone ∷ laptop ∷ []

abbrev pub notes : Bytes
notes = text "notes"

abbrev pub draft : Bytes
draft = text "a draft"

abbrev notes_path : Bytes
notes_path = file_path ana notes

pub busy_world-Unlocked : Unlocked busy_world
busy_world-Unlocked = record { users_free = refl; servers_free = refl }

pub anas_devices : devices_of ana busy ≡ some both
unfolding devices_of same
anas_devices = refl

-- The laptop is told of what the phone does.
laptop_is_told : peer_sockets session both ≡ pos 10 ∷ []
unfolding peer_sockets
laptop_is_told = refl

abbrev pub packet : ℕ → CommandPacket
packet code = record {
  packet_type = 1;
  command = code;
  additional_info = notes ++ replicate 95 0;
  padding = replicate 4 0;
}
