-- ===== src/Registry/Lookup.antt =====
-- The table by names and ids in place of pointers: what a pointer returned by `get_user` or
-- `get_device` points to, and a write through it.
use mathlib.Core.Option
use dropbox_simulator.Common.{
  ℕ, suc, ◌≡◌, refl, ◌⊎◌, inl, inr, ℤ, int_eq, Bytes, same, List, [], ◌∷◌, modify, length,
  if◌then◌else◌, Option, none, some, Option-cases, Bool-cases, arith, ap, ◌∙◌, All, ◌<◌, ◌≤◌,
}
use dropbox_simulator.Registry.{
  Device, User, Users, unused, get_user, devices_at, find_device, count_devices, max_devices,
}

-- The devices of a user.
unfoldable pub devices_of : Bytes → Users → Option (List Device)
devices_of name [] = none
devices_of name (u ∷ us) = if same u.name name then some u.devices else devices_of name us

unfoldable pub on_user : Bytes → (List Device → List Device) → Users → Users
on_user name f [] = []
on_user name f (u ∷ us) =
    if same u.name name then record u { devices = f u.devices } ∷ us else u ∷ on_user name f us

-- The device of that id in a user's list.
unfoldable pub device_with : ℤ → List Device → Option Device
device_with k [] = none
device_with k (d ∷ ds) = if int_eq d.id k then some d else device_with k ds

unfoldable pub on_device : ℤ → (Device → Device) → List Device → List Device
on_device k f [] = []
on_device k f (d ∷ ds) = if int_eq d.id k then f d ∷ ds else d ∷ on_device k f ds

pub get_user-devices_of :
    (name : Bytes) (us : Users) → devices_of name us ≡ Option.map (devices_at us) (get_user name us)
unfolding devices_of get_user
get_user-devices_of name [] = refl
get_user-devices_of name (u ∷ us) = elim (Option-cases (get_user name us)) [
  | inl e ↦ ground (arith, get_user-devices_of name us)
  | inr (i, e) ↦ ground (arith, get_user-devices_of name us)
]

pub modify-on_user :
    (name : Bytes) (f : List Device → List Device) (us : Users) {i : ℕ}
    → get_user name us ≡ some i
    → modify i (λ (u : User). record u { devices = f u.devices }) us ≡ on_user name f us
unfolding on_user get_user
modify-on_user name f [] h = cc
modify-on_user name f (u ∷ us) h = elim (Option-cases (get_user name us)) [
  | inl e ↦ ground arith
  | inr (j, e) ↦ ground (arith, modify-on_user name f us e)
]

pub modify-on_device :
    (k : ℤ) (f : Device → Device) (ds : List Device) {j : ℕ}
    → find_device k ds ≡ some j
    → modify j f ds ≡ on_device k f ds
unfolding on_device find_device
modify-on_device k f [] h = cc
modify-on_device k f (d ∷ ds) h = elim (Option-cases (find_device k ds)) [
  | inl e ↦ ground arith
  | inr (j, e) ↦ ground (arith, modify-on_device k f ds e)
]

-- The index that `find_device` returns, against the device that it stands for.
pub find_device-device_with :
    (k : ℤ) (ds : List Device)
    → ((find_device k ds ≡ none) × (device_with k ds ≡ none))
      ⊎ ((j : ℕ) × (d : Device) × (find_device k ds ≡ some j) × (device_with k ds ≡ some d))
unfolding find_device device_with
find_device-device_with k [] = inl (refl, refl)
find_device-device_with k (d ∷ ds) = elim (Bool-cases (int_eq d.id k)) [
  | inl e ↦ inr (0, d, ground arith, ground arith)
  | inr e ↦ elim (find_device-device_with k ds) [
    | inl (p, q) ↦ inl (ground arith, ground arith)
    | inr (j, x, p, q) ↦ inr (suc j, x, ground arith, ground arith)
  ]
]

pub count_devices-le : (ds : List Device) → count_devices ds ≤ length ds
unfolding count_devices
count_devices-le [] = omega arith
count_devices-le (d ∷ ds) = ground (arith, count_devices-le ds)

-- All slots are taken exactly when none is found.
pub count_devices_full :
    (ds : List Device)
    → ((count_devices ds ≡ length ds) × (device_with unused ds ≡ none))
      ⊎ ((d : Device) × (count_devices ds < length ds) × (device_with unused ds ≡ some d))
unfolding count_devices device_with
count_devices_full [] = inl (refl, refl)
count_devices_full (d ∷ ds) = elim (Bool-cases (int_eq d.id unused)) [
  | inl e ↦ inr (d, ground (arith, count_devices-le ds), ground arith)
  | inr e ↦ elim (count_devices_full ds) [
    | inl (p, q) ↦ inl (ground arith, ground arith)
    | inr (x, p, q) ↦ inr (x, ground arith, ground arith)
  ]
]

-- Every user has `max_devices` slots, as the array in the struct does.
abbrev pub HasSlots : Users → Type 0
HasSlots = All (λ u. length u.devices ≡ max_devices)

pub length-devices_of :
    (name : Bytes) (us : Users) (ds : List Device)
    → HasSlots us
    → devices_of name us ≡ some ds
    → length ds ≡ max_devices
unfolding devices_of
length-devices_of name [] ds h e = cc
length-devices_of name (u ∷ us) ds h e = ground (arith, length-devices_of name us ds h.1)

-- Only what the function does to that user's devices counts.
pub on_user_congr :
    (name : Bytes) (f g : List Device → List Device) (us : Users) (ds : List Device)
    → devices_of name us ≡ some ds
    → f ds ≡ g ds
    → on_user name f us ≡ on_user name g us
unfolding devices_of on_user
on_user_congr name f g [] ds e h = refl
on_user_congr name f g (u ∷ us) ds e h = ground (arith, on_user_congr name f g us ds)

-- `get_user` finds a user exactly where `devices_of` has devices.
pub get_user_cases :
    (name : Bytes) (us : Users)
    → ((get_user name us ≡ none) × (devices_of name us ≡ none))
      ⊎ ((i : ℕ) × (ds : List Device) × (get_user name us ≡ some i)
          × (devices_of name us ≡ some ds)
          × (devices_at us i ≡ ds))
get_user_cases name us = elim (Option-cases (get_user name us)) [
  | inl e ↦ inl (e, get_user-devices_of name us ∙ ap (Option.map (devices_at us)) e)
  | inr (i, e) ↦
      inr (
        i,
        devices_at us i,
        e,
        get_user-devices_of name us ∙ ap (Option.map (devices_at us)) e,
        refl,
      )
]

-- The device that a user's name and a device's id stand for.
abbrev pub device_of : Bytes → ℤ → Users → Option Device
device_of name id us = elim (devices_of name us) [ none ↦ none | some ds ↦ device_with id ds ]

abbrev pub on_device_of : Bytes → ℤ → (Device → Device) → Users → Users
on_device_of name id f = on_user name (on_device id f)
