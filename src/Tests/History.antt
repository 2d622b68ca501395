-- ===== src/Tests/History.antt =====
-- Ana's phone leaves, and Bia's tablet comes.
use dropbox_simulator.Common.{pos, refl, List, [], ◌∷◌, true, false, arith, same}
use dropbox_simulator.Server.{World}
use dropbox_simulator.Server.Session.{serve_connection}
use dropbox_simulator.Server.Commands.{exit, dispatch}
use dropbox_simulator.Server.History.{Change, connects, leaves, Reaches, start, goes_on, Standing}
use dropbox_simulator.Server.History.Runs.{Reaches-Standing}
use dropbox_simulator.Tests.Tables.{ana, bia, busy-IsValid}
use dropbox_simulator.Tests.Sessions.{
  busy_world, busy_world-Steady, connection_of, bia_tablet-Admissible,
}
use dropbox_simulator.Tests.Commands.{session, both, packet, busy_world-Unlocked, anas_devices}
use dropbox_simulator.Tests.Tables.{phone}
use dropbox_simulator.Tests.Boxes.{phone_is_there}

abbrev without_phone : World
without_phone = (dispatch session (packet exit) busy_world).1

abbrev with_tablet : World
with_tablet = (serve_connection (connection_of bia (pos 9)) (pos 22) without_phone).1

abbrev changes : List Change
changes =
    record { is_there = true; name = bia; device = pos 9 }
    ∷ record { is_there = false; name = ana; device = pos 7 }
    ∷ []

tablet_comes : Reaches busy_world changes with_tablet
unfolding same
tablet_comes =
    goes_on
      (goes_on start
        (leaves session (packet exit) both phone refl refl anas_devices phone_is_there refl))
      (connects bia (connection_of bia (pos 9)) (pos 22) bia_tablet-Admissible refl (omega arith))

Reaches-Standing_example : Standing ana (pos 7) busy_world changes with_tablet
unfolding same
Reaches-Standing_example =
    Reaches-Standing ana (pos 7) tablet_comes busy_world-Steady busy_world-Unlocked busy-IsValid
      refl refl
