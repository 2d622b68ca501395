-- ===== src/Registry/Refinement.antt =====
-- The operations of the table refine updates of a map from names and ids to devices.

use dropbox_simulator.Common.{
  ℕ, ◌≡◌, refl, ◌⊎◌, inl, inr, true, false, ℤ, int_eq_iff, ◌≢◌, Bytes, same_iff, List, [], ◌∷◌,
  if◌then◌else◌, none, some, arith, ◌<◌, ◌≤◌, Option-cases,
}
use dropbox_simulator.Registry.{
  Device, Users, defined, unused, free_device, any_connected, insert_device, remove_device,
  insert_socket, set_socket, is_socket_type, success, error, max_devices, max_users,
  max_devices_reached, device_already_connected, user_already_connected, insert_user, remove_user,
  count_devices, number_of_users_logged,
}
use dropbox_simulator.Registry.Lookup.{
  devices_of, device_with, device_of, on_device_of, count_devices_full,
}
use dropbox_simulator.Registry.Cases.{insert_device_cases, remove_device_cases, insert_socket_cases}
use dropbox_simulator.Registry.Writes.{with_id}
use dropbox_simulator.Registry.Invariant.{
  IsValid, UsersValid-HasSlots, UsersValid-DevicesValid, claim_device-IsValid, free_device-IsValid,
  keep_device-IsValid, insert_user_cases, insert_user-IsValid,
}
use dropbox_simulator.Registry.Removal.{remove_user_lem, remove_user-IsValid, devices_of-clear_name}
use dropbox_simulator.Registry.Sessions.{
  IsName, IsId, Updates, claim_device-Updates, free_device-Updates, keep_device-Updates,
}

-- The outcome of `insert_device`: its code and what became of the map.
abbrev pub Inserted : Bytes → ℤ → Users → ℤ → Users → Type 0
Inserted name id us code vs =
    ((code ≡ error) × (devices_of name us ≡ none) × (vs ≡ us))
    ⊎ ((d : Device) × (code ≡ device_already_connected)
        × (device_of name id us ≡ some d)
        × (vs ≡ us))
    ⊎ ((ds : List Device) × (code ≡ max_devices_reached)
        × (device_of name id us ≡ none)
        × (devices_of name us ≡ some ds)
        × (count_devices ds ≡ max_devices)
        × (vs ≡ us))
    ⊎ ((ds : List Device) × (code ≡ success)
        × (device_of name id us ≡ none)
        × (devices_of name us ≡ some ds)
        × (count_devices ds < max_devices)
        × Updates name id (some (with_id id free_device)) us vs)

module _ (name : Bytes) (id : ℤ) (us : Users) (hn : IsName name) (hi : IsId id)
    (v : IsValid us) where
  -- In a well-formed table, for a name that is not empty and an id that is not -1,
  -- `insert_device` returns and keeps the table well formed. It answers -1 for an unknown user
  -- and 5 for a device that is there; 4 for a new device of a user with two; and else 1, and then
  -- that device, with no socket yet, is there and every other device is as it was.
  pub insert_device-Inserted :
      (code : ℤ) × (vs : Users) × (insert_device name id us ≡ defined (code, vs))
      × IsValid vs
      × Inserted name id us code vs
  insert_device-Inserted =
      elim (insert_device_cases name us hn id (UsersValid-HasSlots us v.entries)) [
        | inl (e, r) ↦ (error, us, r, v, inl (refl, e, refl))
        | inr (inl (ds, d, e, f, r)) ↦
            (device_already_connected, us, r, v, inr (inl (d, refl, ground arith, refl)))
        | inr (inr (inl (ds, e, f, g, r))) ↦ (
          max_devices_reached,
          us,
          r,
          v,
          inr (
              inr (
                inl (
                  ds,
                  refl,
                  ground arith,
                  e,
                  ground (
                    arith,
                    count_devices_full ds,
                    (UsersValid-DevicesValid name us ds e v.entries).1,
                  ),
                  refl,
                ))),
        )
        | inr (inr (inr (ds, d, e, f, g, r))) ↦ (
          success,
          on_device_of name unused (with_id id) us,
          r,
          claim_device-IsValid name id us ds hn hi e f v,
          inr (
              inr (
                inr (
                  ds,
                  refl,
                  ground arith,
                  e,
                  ground (
                    arith,
                    count_devices_full ds,
                    (UsersValid-DevicesValid name us ds e v.entries).1,
                  ),
                  claim_device-Updates name id us ds d v e f g,
                ))),
        )
      ]

  -- In a well-formed table, for a name that is not empty and an id that is not -1,
  -- `remove_device` returns and keeps the table well formed. It answers 1 exactly when the device
  -- was there; then that device is gone, and otherwise nothing has changed. Every other device is
  -- as it was.
  pub remove_device_lem :
      (code : ℤ) × (vs : Users) × (remove_device name id us ≡ defined (code, vs))
      × IsValid vs
      × (((code ≡ error) × (device_of name id us ≡ none) × (vs ≡ us))
          ⊎ ((d : Device) × (code ≡ success)
              × (device_of name id us ≡ some d)
              × Updates name id none us vs))
  remove_device_lem = elim (remove_device_cases name us hn id) [
    | inl (e, r) ↦ (error, us, r, v, inl (refl, e, refl))
    | inr (d, e, r) ↦ elim (Option-cases (devices_of name us)) [
      | inl stranger ↦ absurd (ground arith)
      | inr (ds, at) ↦ (
        success,
        on_device_of name id (λ _. free_device) us,
        r,
        free_device-IsValid name id us ds hn at v,
        inr (d, refl, e, free_device-Updates name id us ds v at),
      )
    ]
  ]

  -- In a well-formed table, for a name that is not empty, an id that is not -1, a device that is
  -- there and one of the three socket types, `insert_socket` returns, keeps
  -- the table well formed, writes the socket of that type and leaves every other device as it was.
  pub insert_socket_lem :
      (socket : ℤ) (socket_type : ℕ) (d : Device)
      → is_socket_type socket_type ≡ true
      → device_of name id us ≡ some d
      → (vs : Users) × (insert_socket name id socket socket_type us ≡ defined vs)
        × IsValid vs
        × Updates name id (some (set_socket socket socket_type d)) us vs
  insert_socket_lem socket socket_type d known e =
      elim (insert_socket_cases name us hn id socket socket_type known) [
        | inl (f, r) ↦ absurd (ground arith)
        | inr (d', f, r) ↦ elim (Option-cases (devices_of name us)) [
          | inl stranger ↦ absurd (ground arith)
          | inr (ds, at) ↦ (
            on_device_of name id (set_socket socket socket_type) us,
            r,
            keep_device-IsValid name id (set_socket socket socket_type) us ds (λ d. ground arith) hn
                hi at v,
            keep_device-Updates name id (set_socket socket socket_type) us ds d (λ d. ground arith)
                at (ground arith),
          )
        ]
      ]

any_connected-device_with :
    (ds : List Device) (k : ℤ) → IsId k → any_connected ds ≡ false → device_with k ds ≡ none
unfolding any_connected device_with
any_connected-device_with [] k h e = refl
any_connected-device_with (d ∷ ds) k h e =
    ground (arith, int_eq_iff d.id k, int_eq_iff d.id unused, any_connected-device_with ds k h)

any_connected-count_devices : (ds : List Device) → any_connected ds ≡ false → count_devices ds ≡ 0
unfolding any_connected count_devices
any_connected-count_devices [] e = refl
any_connected-count_devices (d ∷ ds) e = ground (arith, any_connected-count_devices ds)

-- In a well-formed table and for a name that is not empty, `insert_user` keeps the table well
-- formed and the map of devices as it is. It answers 3 for a user who is there and -1 for a new
-- one while five users are logged in, and then changes nothing; else it answers 1 and the user is
-- there, with no device. It never answers 2, which is the code for too many users.
pub insert_user_lem :
    (name : Bytes) (us : Users)
    → IsName name
    → IsValid us
    → IsValid (insert_user name us).1
      × ((n : Bytes) (k : ℤ)
          → IsName n
          → IsId k
          → device_of n k (insert_user name us).1 ≡ device_of n k us)
      × (((insert_user name us ≡ (user_already_connected, us)) × (devices_of name us ≢ none))
          ⊎ ((insert_user name us ≡ (error, us))
              × (devices_of name us ≡ none)
              × (max_users ≤ number_of_users_logged us))
          ⊎ (((insert_user name us).0 ≡ success)
              × (devices_of name us ≡ none)
              × (number_of_users_logged us < max_users)
              × ((ds : List Device) × (devices_of name (insert_user name us).1 ≡ some ds)
                  × (count_devices ds ≡ 0))))
insert_user_lem name us hn v = elim (insert_user_cases name us hn v) [
  | inl (ds, e, r) ↦ (insert_user-IsValid name us hn v, λ n k a b. rw r, inl (r, ground arith))
  | inr (inl (e, full, r)) ↦
      (insert_user-IsValid name us hn v, λ n k a b. rw r, inr (inl (r, e, full)))
  | inr (inr (ds, e, room, r, c, at)) ↦ (
    insert_user-IsValid name us hn v,
    λ n k a b. ground (arith, at n a, same_iff name n, any_connected-device_with ds k b c),
    inr (
        inr (
          r,
          e,
          room,
          (ds, ground (arith, at name hn, same_iff name name), any_connected-count_devices ds c),
        )),
  )
]

-- In a well-formed table, `remove_user` of a user who is there, under a name that is not empty,
-- keeps the table well formed and the map of devices as it is; the user is gone exactly if no
-- device of theirs is connected.
pub remove_user-refines :
    (name : Bytes) (us : Users) (ds : List Device)
    → IsName name
    → IsValid us
    → devices_of name us ≡ some ds
    → IsValid (remove_user name us)
      × ((n : Bytes) (k : ℤ)
          → IsName n
          → IsId k
          → device_of n k (remove_user name us) ≡ device_of n k us)
      × (devices_of name (remove_user name us) ≡ (if any_connected ds then some ds else none))
remove_user-refines name us ds hn v e = (
  remove_user-IsValid name us ds hn e v,
  (λ n k a b. rw (remove_user_lem name us ds hn e v) (
      ground (
        arith,
        same_iff name n,
        devices_of-clear_name name n us hn a v.entries,
        any_connected-device_with ds k b,
      ))),
  rw (remove_user_lem name us ds hn e v)
      (ground (arith, same_iff name name, devices_of-clear_name name name us hn hn v.entries)),
)
