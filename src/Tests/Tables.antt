-- ===== src/Tests/Tables.antt =====
-- The tables of users and of backup servers.
use dropbox_simulator.Common.{
  ◌≡◌, refl, ◌⊎◌, ℤ, pos, Bytes, text, same, List, [], ◌∷◌, none, some, arith,
}
use dropbox_simulator.Registry.{
  Device, User, Users, free_device, insert_user, insert_device, remove_device, remove_user,
  insert_socket, get_user, find_device, get_device, get_available_device, number_of_users_logged,
  number_of_devices, count_devices, any_connected, claim, defined, success, t2, error, unused,
}
use dropbox_simulator.Registry.Lookup.{devices_of, device_with, device_of}
use dropbox_simulator.Registry.Invariant.{IsValid}
use dropbox_simulator.Registry.Sessions.{Updates}
use dropbox_simulator.Registry.Refinement.{
  Inserted, insert_device-Inserted, remove_device_lem, remove_user-refines,
}
use dropbox_simulator.Registry.Contracts.{
  HasSocket, IsFull, insert_socket-HasSocket, insert_user-IsFull,
}
use dropbox_simulator.Registry.Sessions.{IsName, IsId}
use dropbox_simulator.Registry.{user_already_connected, count_devices}
use dropbox_simulator.Common.{◌≢◌}
use dropbox_simulator.Server.{BackupServer}

abbrev pub ana : Bytes
ana = text "ana"

abbrev pub bia : Bytes
bia = text "bia"

abbrev pub free_user : User
free_user = record { name = []; devices = free_device ∷ free_device ∷ [] }

abbrev pub phone : Device
phone = record { id = pos 7; socket1 = pos 4; socket2 = pos 5; socket3 = pos 6 }

abbrev pub laptop : Device
laptop = record { id = pos 3; socket1 = pos 8; socket2 = pos 9; socket3 = pos 10 }

-- Ana with two devices and Bia with one.
abbrev pub busy : Users
busy =
    record { name = ana; devices = phone ∷ laptop ∷ [] }
    ∷ record { name = bia; devices = free_device ∷ phone ∷ [] }
    ∷ free_user
    ∷ free_user
    ∷ free_user
    ∷ []

pub busy-IsValid : IsValid busy
unfolding same device_with devices_of any_connected
busy-IsValid = record { size = refl; entries = ground arith }

-- Ana's third device is refused, and Bia's second one is not.
insert_device-Inserted_example :
    (code : ℤ) × (vs : Users) × (insert_device ana (pos 9) busy ≡ defined (code, vs))
    × IsValid vs
    × Inserted ana (pos 9) busy code vs
unfolding same
insert_device-Inserted_example = insert_device-Inserted ana (pos 9) busy refl refl busy-IsValid

insert_third_device : insert_device ana (pos 9) busy ≡ defined (pos 4, busy)
unfolding insert_device get_device get_available_device number_of_devices count_devices get_user
    find_device same
insert_third_device = refl

remove_device_lem_example :
    (code : ℤ) × (vs : Users) × (remove_device ana (pos 3) busy ≡ defined (code, vs))
    × IsValid vs
    × (((code ≡ error) × (device_of ana (pos 3) busy ≡ none) × (vs ≡ busy))
        ⊎ ((d : Device) × (code ≡ success)
            × (device_of ana (pos 3) busy ≡ some d)
            × Updates ana (pos 3) none busy vs))
unfolding same
remove_device_lem_example = remove_device_lem ana (pos 3) busy refl refl busy-IsValid

insert_socket-HasSocket_example :
    (vs : Users) × (e : Device) × (insert_socket bia (pos 7) (pos 21) t2 busy ≡ defined vs)
    × IsValid vs
    × HasSocket t2 (pos 21) phone e
    × Updates bia (pos 7) (some e) busy vs
unfolding same devices_of device_with
insert_socket-HasSocket_example =
    insert_socket-HasSocket bia (pos 7) busy (pos 21) t2 phone refl refl busy-IsValid refl refl

insert_user-IsFull_example :
    IsValid (insert_user (text "caio") busy).1
    × ((n : Bytes) (k : ℤ)
        → IsName n
        → IsId k
        → device_of n k (insert_user (text "caio") busy).1 ≡ device_of n k busy)
    × (((insert_user (text "caio") busy ≡ (user_already_connected, busy))
          × (devices_of (text "caio") busy ≢ none))
        ⊎ ((insert_user (text "caio") busy ≡ (error, busy))
            × (devices_of (text "caio") busy ≡ none)
            × IsFull busy)
        ⊎ (((insert_user (text "caio") busy).0 ≡ success)
            × (devices_of (text "caio") busy ≡ none)
            × (¬ IsFull busy)
            × ((ds : List Device) × (devices_of (text "caio") (insert_user (text "caio") busy).1
                  ≡ some ds)
                × (count_devices ds ≡ 0))))
unfolding same
insert_user-IsFull_example = insert_user-IsFull (text "caio") busy refl busy-IsValid

insert_new_user : (insert_user (text "caio") busy).0 ≡ pos 1
unfolding insert_user get_user number_of_users_logged claim same
insert_new_user = refl

remove_user-refines_example : devices_of ana (remove_user ana busy) ≡ some (phone ∷ laptop ∷ [])
unfolding same devices_of any_connected
remove_user-refines_example =
    (remove_user-refines ana busy (phone ∷ laptop ∷ []) refl busy-IsValid refl).2

-- The second slot is free.
abbrev one_server : List BackupServer
one_server = record { id = pos 14; socket = pos 30 } ∷ record { id = unused; socket = unused } ∷ []
