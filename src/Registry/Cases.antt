-- ===== src/Registry/Cases.antt =====
-- Each function of the table, on every branch, by names and ids in place of pointers.

use dropbox_simulator.Common.{
  ℕ, ◌≡◌, ◌⊎◌, inl, inr, true, false, ℤ, pos, Bytes, same, List, [], modify, length, if◌then◌else◌,
  none, some, arith, ap, ◌∙◌, ◌<◌,
}
use dropbox_simulator.Registry.{
  Device, Users, Checked, defined, undefined, unused, free_device, get_user, devices_at,
  find_device, get_device, get_available_device, number_of_devices, error, success, max_devices,
  max_devices_reached, device_already_connected, modify_device, insert_device, remove_device,
  count_devices, ◌>>=◌, insert_socket, is_socket_type, set_socket, is_device_connected,
  any_connected,
}
use dropbox_simulator.Registry.Lookup.{
  devices_of, device_of, on_device_of, on_user, device_with, on_device, modify-on_user,
  modify-on_device, HasSlots, on_user_congr, find_device-device_with, count_devices_full,
  length-devices_of, get_user_cases,
}

-- What `insert_device` promises.
abbrev pub InsertDevice : Bytes → ℤ → Users → Checked (ℤ × Users) → Type 0
InsertDevice name id us r =
    ((devices_of name us ≡ none) × (r ≡ defined (error, us)))
    ⊎ ((ds : List Device) × (d : Device) × (devices_of name us ≡ some ds)
        × (device_with id ds ≡ some d)
        × (r ≡ defined (device_already_connected, us)))
    ⊎ ((ds : List Device) × (devices_of name us ≡ some ds)
        × (device_with id ds ≡ none)
        × (device_with unused ds ≡ none)
        × (r ≡ defined (max_devices_reached, us)))
    ⊎ ((ds : List Device) × (d : Device) × (devices_of name us ≡ some ds)
        × (device_with id ds ≡ none)
        × (device_with unused ds ≡ some d)
        × (r ≡ defined (success, on_user name (on_device unused (λ x. record x { id = id })) us)))

module _ (name : Bytes) (us : Users) (named : same name [] ≡ false) where
  get_device_found :
      (id : ℤ) {i j : ℕ} {ds : List Device}
      → get_user name us ≡ some i
      → devices_at us i ≡ ds
      → find_device id ds ≡ some j
      → get_device id name us ≡ defined (some (i, j))
  unfolding get_device
  get_device_found id e at f = ground arith

  get_device_missing :
      (id : ℤ) {i : ℕ} {ds : List Device}
      → get_user name us ≡ some i
      → devices_at us i ≡ ds
      → find_device id ds ≡ none
      → get_device id name us ≡ defined none
  unfolding get_device
  get_device_missing id e at f = ground arith

  get_device_stranger : (id : ℤ) → get_user name us ≡ none → get_device id name us ≡ defined none
  unfolding get_device
  get_device_stranger id e = ground arith

  -- A write through the pointer.
  modify_device-on_user :
      (id : ℤ) (f : Device → Device) {i j : ℕ} (ds : List Device)
      → get_user name us ≡ some i
      → devices_of name us ≡ some ds
      → find_device id ds ≡ some j
      → modify_device (i, j) f us ≡ on_user name (on_device id f) us
  unfolding modify_device
  modify_device-on_user id f {j} ds e at found =
      modify-on_user name (modify j f) us e
      ∙ on_user_congr name (modify j f) (on_device id f) us ds at (modify-on_device id f ds found)

  available_full :
      {i : ℕ} {ds : List Device}
      → get_user name us ≡ some i
      → devices_at us i ≡ ds
      → count_devices ds ≡ max_devices
      → get_available_device name us ≡ defined none
  unfolding get_available_device number_of_devices
  available_full e at c = ground arith

  available_found :
      {i j : ℕ} {ds : List Device}
      → get_user name us ≡ some i
      → devices_at us i ≡ ds
      → count_devices ds < max_devices
      → find_device unused ds ≡ some j
      → get_available_device name us ≡ defined (some (i, j))
  unfolding get_available_device number_of_devices
  available_found e at c f = ground arith

  insert_device_at :
      (id : ℤ) (i : ℕ) (ds : List Device)
      → length ds ≡ max_devices
      → get_user name us ≡ some i
      → devices_of name us ≡ some ds
      → devices_at us i ≡ ds
      → InsertDevice name id us (insert_device name id us)
  unfolding insert_device
  insert_device_at id i ds full e at slot = elim (find_device-device_with id ds) [
    | inr (j, d, p, q) ↦ inr (inl (ds, d, at, q, ground (arith, get_device_found id e slot p)))
    | inl (p, q) ↦ elim (find_device-device_with unused ds) [
      | inl (f, g) ↦ inr (
          inr (
            inl (
              ds,
              at,
              q,
              g,
              ground (
                arith,
                get_device_missing id e slot p,
                available_full e slot,
                count_devices_full ds,
              ),
            )))
      | inr (j, d, f, g) ↦ inr (
          inr (
            inr (
              ds,
              d,
              at,
              q,
              g,
              ground (
                arith,
                get_device_missing id e slot p,
                available_found {j = j} e slot,
                count_devices_full ds,
                modify_device-on_user unused (λ x. record x { id = id }) {i = i} {j = j} ds e at f,
              ),
            )))
    ]
  ]

  -- `insert_device` never runs off its end or through a null pointer; it refuses an unknown
  -- user, reports a device that is there, refuses a third device, and else takes the first free
  -- slot of that user.
  pub insert_device_cases :
      (id : ℤ) → HasSlots us → InsertDevice name id us (insert_device name id us)
  unfolding insert_device
  insert_device_cases id slots = elim (get_user_cases name us) [
    | inl (e, at) ↦ inl (at, ground arith)
    | inr (i, ds, e, at, slot) ↦
        insert_device_at id i ds (length-devices_of name us ds slots at) e at slot
  ]

  -- The pointer that `get_device` returns is null exactly for a device that is not there, and a
  -- write through it changes that device alone.
  get_device_cases :
      (id : ℤ)
      → ((get_device id name us ≡ defined none) × (device_of name id us ≡ none))
        ⊎ ((p : ℕ × ℕ) × (d : Device) × (get_device id name us ≡ defined (some p))
            × (device_of name id us ≡ some d)
            × ((f : Device → Device) → modify_device p f us ≡ on_device_of name id f us))
  get_device_cases id = elim (get_user_cases name us) [
    | inl (e, at) ↦ inl (get_device_stranger id e, ground arith)
    | inr (i, ds, e, at, slot) ↦ elim (find_device-device_with id ds) [
      | inl (p, q) ↦ inl (get_device_missing id e slot p, ground arith)
      | inr (j, d, p, q) ↦ inr (
        (i, j),
        d,
        get_device_found id e slot p,
        ground arith,
        λ f. modify_device-on_user id f {i = i} {j = j} ds e at p,
      )
    ]
  ]

  -- `remove_device` refuses what is not there, and else frees that slot.
  pub remove_device_cases :
      (id : ℤ)
      → ((device_of name id us ≡ none) × (remove_device name id us ≡ defined (error, us)))
        ⊎ ((d : Device) × (device_of name id us ≡ some d)
            × (remove_device name id us
                ≡ defined (success, on_device_of name id (λ _. free_device) us)))
  unfolding remove_device
  remove_device_cases id = elim (get_device_cases id) [
    | inl (p, q) ↦ inl (q, ground (arith, get_user_cases name us))
    | inr (p, d, g, q, write) ↦
        inr (d, q, ground (arith, get_user_cases name us, write (λ _. free_device)))
  ]

  -- `insert_socket` writes the socket of a device that is there, and dereferences a null pointer
  -- for one that is not.
  pub insert_socket_cases :
      (id socket : ℤ) (socket_type : ℕ)
      → is_socket_type socket_type ≡ true
      → ((device_of name id us ≡ none) × (insert_socket name id socket socket_type us ≡ undefined))
        ⊎ ((d : Device) × (device_of name id us ≡ some d)
            × (insert_socket name id socket socket_type us
                ≡ defined (on_device_of name id (set_socket socket socket_type) us)))
  unfolding insert_socket
  insert_socket_cases id socket socket_type known = elim (get_device_cases id) [
    | inl (p, q) ↦ inl (q, rw (p, insert_socket, ◌>>=◌) (rw known))
    | inr (p, d, g, q, write) ↦
        inr
          (d, q, rw (g, insert_socket, ◌>>=◌) (ap defined (write (set_socket socket socket_type))))
  ]

-- `is_device_connected`, for a user that is there or not.
pub is_device_connected_cases :
    (name : Bytes) (us : Users)
    → ((devices_of name us ≡ none) × (is_device_connected name us ≡ error))
      ⊎ ((ds : List Device) × (devices_of name us ≡ some ds)
          × (is_device_connected name us ≡ (if any_connected ds then pos 1 else pos 0)))
unfolding is_device_connected
is_device_connected_cases name us = elim (get_user_cases name us) [
  | inl (e, at) ↦ inl (at, ground arith)
  | inr (i, ds, e, at, slot) ↦ inr (ds, at, ground arith)
]
