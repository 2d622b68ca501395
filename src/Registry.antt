-- ===== src/Registry.antt =====
-- The table of connected users (`users`, server-side/source/Server.cpp:617-806, with the structs
-- and constants of utils/include/masterInclude.h). A pointer into the table is the index, or the
-- pair of indices, of what it points to.
pub mod Lookup
pub mod Cases
pub mod Writes
pub mod Invariant
pub mod Removal
pub mod Sessions
pub mod Sockets
pub mod Refinement
pub mod Contracts
use dropbox_simulator.Common.{
  ℕ, zero, suc, Bool, true, false, not, ◌||◌, ℤ, pos, negsuc, int_eq, Bytes, same, List, [], ◌∷◌,
  ◌++◌, map, modify, leb, ◌==◌, if◌then◌else◌, Option, none, some,
}
use mathlib.Core.Option

abbrev pub max_devices : ℕ
max_devices = 2

abbrev pub max_users : ℕ
max_users = 5

-- The results of the table's functions, as the code's `int`s.
abbrev pub success : ℤ
success = pos 1

abbrev pub error : ℤ
error = negsuc 0

abbrev pub max_users_reached : ℤ
max_users_reached = pos 2

abbrev pub user_already_connected : ℤ
user_already_connected = pos 3

abbrev pub max_devices_reached : ℤ
max_devices_reached = pos 4

abbrev pub device_already_connected : ℤ
device_already_connected = pos 5

-- The id and the socket of a slot that is not in use.
abbrev pub unused : ℤ
unused = negsuc 0

abbrev pub t1 : ℕ
t1 = 1

abbrev pub t2 : ℕ
t2 = 2

abbrev pub t3 : ℕ
t3 = 3

pub record Device : Type 0 where
  pub id : ℤ
  pub socket1 : ℤ
  pub socket2 : ℤ
  pub socket3 : ℤ

pub record User : Type 0 where
  pub name : Bytes
  pub devices : List Device

abbrev pub Users : Type 0
Users = List User

-- The value of a call, or no value: the call dereferences a null pointer, or its result is used
-- though it ended without a `return`.
pub data Checked {ℓ} (A : Type ℓ) : Type ℓ where
  defined : A → Checked A
  undefined : Checked A

infixl 5 ◌>>=◌
abbrev pub ◌>>=◌ {ℓ κ} : {A : Type ℓ} {B : Type κ} → Checked A → (A → Checked B) → Checked B
defined a >>= f = f a
undefined >>= f = undefined

abbrev pub free_device : Device
free_device = record { id = unused; socket1 = unused; socket2 = unused; socket3 = unused }

-- `initiate_user_controller_structure`
unfoldable pub initiate_user_controller_structure : Users → Users
initiate_user_controller_structure =
    map λ user. record { name = []; devices = map (λ _. free_device) user.devices }

-- `get_user`: the first user of that name.
unfoldable pub get_user : Bytes → Users → Option ℕ
get_user name [] = none
get_user name (u ∷ us) = if same u.name name then some 0 else Option.map suc (get_user name us)

-- The devices that a `User *` points to.
abbrev pub devices_at : Users → ℕ → List Device
devices_at [] i = []
devices_at (u ∷ us) zero = u.devices
devices_at (u ∷ us) (suc i) = devices_at us i

-- The loop of `get_device`, and with `unused` that of `get_available_device`.
unfoldable pub find_device : ℤ → List Device → Option ℕ
find_device device_id [] = none
find_device device_id (d ∷ ds) =
    if int_eq d.id device_id then some 0 else Option.map suc (find_device device_id ds)

-- `for (auto &device : user->devices) if (device.id != -1) return true; return false;`
unfoldable pub any_connected : List Device → Bool
any_connected [] = false
any_connected (d ∷ ds) = if int_eq d.id unused then any_connected ds else true

-- `is_device_connected`: an `int`, 0 and 1 for the answer and -1 for an unknown user.
unfoldable pub is_device_connected : Bytes → Users → ℤ
is_device_connected name us = elim (get_user name us) [
  | none ↦ error
  | some i ↦ if any_connected (devices_at us i) then pos 1 else pos 0
]

-- An `int` as a condition.
abbrev pub is_truthy : ℤ → Bool
is_truthy n = not (int_eq n (pos 0))

-- `number_of_users_logged`
unfoldable pub number_of_users_logged : Users → ℕ
number_of_users_logged [] = 0
number_of_users_logged (u ∷ us) =
    let n = number_of_users_logged us in if same u.name [] then n else suc n

unfoldable pub count_devices : List Device → ℕ
count_devices [] = 0
count_devices (d ∷ ds) = let n = count_devices ds in if int_eq d.id unused then n else suc n

-- `number_of_devices`
unfoldable pub number_of_devices : Bytes → Users → ℤ
number_of_devices name us = elim (get_user name us) [
  | none ↦ error
  | some i ↦ pos (count_devices (devices_at us i))
]

-- `int` `>=` for a limit that is not negative.
abbrev pub at_least : ℤ → ℕ → Bool
at_least (pos n) limit = leb limit n
at_least (negsuc n) limit = false

-- The last loop of `insert_user`: the name goes into the first free slot.
unfoldable pub claim : Bytes → Users → ℤ × Users
claim name [] = (error, [])
claim name (u ∷ us) =
    if same u.name []
    then (success, record u { name = name } ∷ us)
    else ((claim name us).0, u ∷ (claim name us).1)

-- `insert_user`
unfoldable pub insert_user : Bytes → Users → ℤ × Users
insert_user name us = elim (get_user name us) [
  | some i ↦ (user_already_connected, us)
  | none ↦ if leb max_users (number_of_users_logged us) then (error, us) else claim name us
]

-- The loop of `remove_user`, over the slots that are left; `done` are those before. It stops at
-- a user of that name who has a device.
unfoldable pub remove_user_loop : Bytes → Users → Users → Users
remove_user_loop name done [] = done
remove_user_loop name done (u ∷ us) =
    let rest = remove_user_loop name (done ++ (u ∷ [])) us in
    let cleared = remove_user_loop name (done ++ (record u { name = [] } ∷ [])) us in
    if same u.name name
    then (if is_truthy (is_device_connected name (done ++ (u ∷ us)))
        then done ++ (u ∷ us)
        else cleared)
    else rest

-- `remove_user`; no caller looks at its result.
unfoldable pub remove_user : Bytes → Users → Users
remove_user name us = remove_user_loop name [] us

-- `get_device`: with an empty name it ends without a `return`.
unfoldable pub get_device : ℤ → Bytes → Users → Checked (Option (ℕ × ℕ))
get_device device_id name us = if same name [] then undefined else elim (get_user name us) [
  | none ↦ defined none
  | some i ↦ defined (Option.map (λ j. (i, j)) (find_device device_id (devices_at us i)))
]

-- `get_available_device`: it ends without a `return` if the loop finds no free slot.
unfoldable pub get_available_device : Bytes → Users → Checked (Option (ℕ × ℕ))
get_available_device name us = elim (get_user name us) [
  | none ↦ defined none
  | some i ↦
      if at_least (number_of_devices name us) max_devices
      then defined none
      else elim (find_device unused (devices_at us i)) [
        | none ↦ undefined
        | some j ↦ defined (some (i, j))
      ]
]

-- A write through a `Device *`.
unfoldable pub modify_device : ℕ × ℕ → (Device → Device) → Users → Users
modify_device (i, j) f = modify i λ u. record u { devices = modify j f u.devices }

-- `insert_device`
unfoldable pub insert_device : Bytes → ℤ → Users → Checked (ℤ × Users)
insert_device name device_id us = elim (get_user name us) [
  | none ↦ defined (error, us)
  | some i ↦ get_device device_id name us >>= λ dev_aux. elim dev_aux [
    | some p ↦ defined (device_already_connected, us)
    | none ↦ get_available_device name us >>= λ device. elim device [
      | none ↦ defined (max_devices_reached, us)
      | some p ↦ defined (success, modify_device p (λ d. record d { id = device_id }) us)
    ]
  ]
]

-- `remove_device`
unfoldable pub remove_device : Bytes → ℤ → Users → Checked (ℤ × Users)
remove_device name device_id us = elim (get_user name us) [
  | none ↦ defined (error, us)
  | some i ↦ get_device device_id name us >>= λ dev_aux. elim dev_aux [
    | none ↦ defined (error, us)
    | some p ↦ defined (success, modify_device p (λ _. free_device) us)
  ]
]

-- The `switch` of `insert_socket`; any other type changes nothing.
abbrev pub set_socket : ℤ → ℕ → Device → Device
set_socket socket socket_type d =
    if socket_type == t1
    then record d { socket1 = socket }
    else if socket_type == t2
    then record d { socket2 = socket }
    else if socket_type == t3
    then record d { socket3 = socket }
    else d

abbrev pub is_socket_type : ℕ → Bool
is_socket_type n = n == t1 || n == t2 || n == t3

-- `insert_socket`; its result is not used. A null device is dereferenced in the cases that write.
unfoldable pub insert_socket : Bytes → ℤ → ℤ → ℕ → Users → Checked Users
insert_socket name device_id socket socket_type us = get_device device_id name us >>= λ device.
    elim device [
      | none ↦ if is_socket_type socket_type then undefined else defined us
      | some p ↦ defined (modify_device p (set_socket socket socket_type) us)
    ]
