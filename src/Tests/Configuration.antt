-- ===== src/Tests/Configuration.antt =====
-- The server.txt of a backup server.
use dropbox_simulator.Common.{
  ℕ, suc, if◌then◌else◌, none, true, false, ◌≡◌, refl, true, pos, Bytes, text, [], replicate, some,
  arith,
}
use dropbox_simulator.Server.Configuration.{Address, Identity, get_backup_servers_ips}
use dropbox_simulator.Server.Configuration.Numbers.{digits}
use dropbox_simulator.Server.Configuration.Settings.{
  Settings, backup_server, settings_room, written, settled, get_backup_servers_ips-written,
}

abbrev blank : Address
blank = record { ip = []; port = pos 0 }

abbrev fresh : Identity
fresh = record {
  is_primary = true;
  id = pos 0;
  my = blank;
  primary = blank;
  secondary = blank;
  info_as_primary = (pos 0, blank);
  info_as_secondary = (pos 0, blank);
  primary_info = blank;
  secondary_info = blank;
}

abbrev heap : ℕ → Bytes
heap n = replicate (suc n) 0xee

abbrev second_backup : Settings
second_backup =
    backup_server 9 (record { host = text "10.0.2.15"; number = 6002 })
      (record { host = text "10.0.2.15"; number = 5001 })
      (record { host = text "localhost"; number = 6005 })

-- The file of the repository begins so.
first_bytes : written second_backup ≡ text "#\n9\n10.0.2.15 6002\n10.0.2.15 5001\nlocalhost 6005\n"
unfolding digits
first_bytes = refl

get_backup_servers_ips-written_example :
    get_backup_servers_ips heap (some (written second_backup)) fresh
    ≡ (if settings_room heap second_backup then some (settled second_backup fresh) else none)
get_backup_servers_ips-written_example = get_backup_servers_ips-written heap second_backup fresh (
  omega arith,
  ((ground arith, omega arith), omega arith),
  ((ground arith, omega arith), omega arith),
  ((ground arith, omega arith), omega arith),
)

-- These blocks have a byte more; blocks of just the size that is asked for do not.
has_room_example : settings_room heap second_backup ≡ true
unfolding digits
has_room_example = refl

exact_blocks : settings_room (λ n. replicate n 0xee) second_backup ≡ false
unfolding digits
exact_blocks = refl
