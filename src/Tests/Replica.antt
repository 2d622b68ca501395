-- ===== src/Tests/Replica.antt =====
-- What a backup server does with the commands of the primary one.
use dropbox_simulator.Common.{
  ◌≡◌, refl, ◌++◌, pos, Bytes, text, [], arith, same, true, if◌then◌else◌,
}
use dropbox_simulator.Thread.{done}
use dropbox_simulator.Server.Commands.{file_path}
use dropbox_simulator.Server.Commands.Peers.{facing}
use dropbox_simulator.Server.Replica.{serve_primary}
use dropbox_simulator.Server.Commands.Serving.{delivered}
use dropbox_simulator.Server.Replica.Connections.{Mirrored, serve_primary-connection}
use dropbox_simulator.Server.Session.Broadcast.{announcement}
use dropbox_simulator.Server.Session.Outcome.{IsRefused}
use dropbox_simulator.Server.{database_dir, slash}
use dropbox_simulator.Registry.{Users, count_devices}
use dropbox_simulator.Registry.Lookup.{devices_of, device_with}
use dropbox_simulator.Wire.Laws.{ConnectionFits}
use dropbox_simulator.Tests.Tables.{ana, bia, busy-IsValid}
use dropbox_simulator.Tests.Sessions.{
  busy_world, busy_world-Steady, connection_of, bia_tablet-Admissible,
}

abbrev plan : Bytes
plan = text "the plan"

abbrev plan_path : Bytes
plan_path = file_path ana (text "plan")

serve_primary-connection_example :
    let connection = connection_of bia (pos 9) in
    let path = database_dir ++ (slash ++ bia) in
    (us : Users) × (serve_primary
        (facing (delivered (announcement busy_world connection (pos 30)) ++ []) busy_world)
      ≡ (
        done tt,
        record (facing [] busy_world) {
          users = us;
          dirs = λ q. if same q path then true else busy_world.dirs q;
        },
      ))
    × Mirrored bia connection bia_tablet-Admissible busy_world us
unfolding same devices_of device_with count_devices
serve_primary-connection_example =
    serve_primary-connection bia (connection_of bia (pos 9)) bia_tablet-Admissible (pos 30) []
      busy_world busy_world busy_world-Steady in_range (omega arith) busy-IsValid bia_has_room
  where
    in_range : ConnectionFits (connection_of bia (pos 9))
    in_range = record {
      type_fits = omega arith;
      socket_type_fits = omega arith;
      device_fits = omega arith;
      name_fits = refl;
      socket_fits = omega arith;
      padding_fits = refl;
    }

    bia_has_room : ¬ IsRefused bia (connection_of bia (pos 9)) busy_world
    bia_has_room h = ground arith
