-- ===== src/Registry/Contracts.antt =====
-- What the table promises of a socket and of a new user, without the functions that it is made of
-- (server-side/source/Server.cpp:650-672 and 775-806).
use dropbox_simulator.Common.{
  ℕ, ◌≡◌, ◌≢◌, ◌≤◌, refl, ◌⊎◌, inl, inr, true, ℤ, Bytes, List, [], ◌∷◌, All, length, none, some,
  arith,
}
use dropbox_simulator.Registry.{
  Device, Users, defined, unused, t1, t2, t3, set_socket, is_socket_type, insert_socket,
  insert_user, number_of_users_logged, success, error, user_already_connected, count_devices,
}
use dropbox_simulator.Registry.Lookup.{devices_of, device_of}
use dropbox_simulator.Registry.Invariant.{IsValid}
use dropbox_simulator.Registry.Sessions.{IsName, IsId, Updates}
use dropbox_simulator.Registry.Refinement.{insert_socket_lem, insert_user_lem}

-- `e` is `d`, but for the one socket that a connection of this type brings.
abbrev pub HasSocket : ℕ → ℤ → Device → Device → Type 0
HasSocket socket_type socket d e =
    ((socket_type ≡ t1)
      × (e ≡ record { id = d.id; socket1 = socket; socket2 = d.socket2; socket3 = d.socket3 }))
    ⊎ ((socket_type ≡ t2)
        × (e ≡ record { id = d.id; socket1 = d.socket1; socket2 = socket; socket3 = d.socket3 }))
    ⊎ ((socket_type ≡ t3)
        × (e ≡ record { id = d.id; socket1 = d.socket1; socket2 = d.socket2; socket3 = socket }))

pub set_socket-HasSocket :
    (socket : ℤ) (socket_type : ℕ) (d : Device)
    → is_socket_type socket_type ≡ true
    → HasSocket socket_type socket d (set_socket socket socket_type d)
set_socket-HasSocket socket socket_type d known = ground arith

-- `d` is the device of that id that a user has, or a new one without sockets if there is none.
abbrev pub IsFound : Bytes → ℤ → Users → Device → Type 0
IsFound name id us d =
    (device_of name id us ≡ some d)
    ⊎ ((device_of name id us ≡ none)
        × (d ≡ record { id = id; socket1 = unused; socket2 = unused; socket3 = unused }))

-- In a well-formed table, for a name that is not empty, an id that is not -1, a device that is
-- there and one of the three socket types, `insert_socket` returns and keeps the table well
-- formed; the device then has the socket of that type, its other two sockets and every other
-- device are as they were.
pub insert_socket-HasSocket :
    (name : Bytes) (id : ℤ) (us : Users) (socket : ℤ) (socket_type : ℕ) (d : Device)
    → IsName name
    → IsId id
    → IsValid us
    → is_socket_type socket_type ≡ true
    → device_of name id us ≡ some d
    → (vs : Users) × (e : Device) × (insert_socket name id socket socket_type us ≡ defined vs)
      × IsValid vs
      × HasSocket socket_type socket d e
      × Updates name id (some e) us vs
insert_socket-HasSocket name id us socket socket_type d hn hi v known there =
    let (vs, r, valid, up) =
      insert_socket_lem name id us hn hi v socket socket_type d known there in
    (
      vs,
      set_socket socket socket_type d,
      r,
      valid,
      set_socket-HasSocket socket socket_type d known,
      up,
    )

-- Every slot of the table has a user.
abbrev pub IsFull : Users → Type 0
IsFull = All (λ u. IsName u.name)

number_of_users_logged_bound : (us : Users) → number_of_users_logged us ≤ length us
unfolding number_of_users_logged
number_of_users_logged_bound [] = omega arith
number_of_users_logged_bound (u ∷ us) = ground (arith, number_of_users_logged_bound us)

number_of_users_logged-IsFull : (us : Users) → length us ≤ number_of_users_logged us → IsFull us
unfolding number_of_users_logged
number_of_users_logged-IsFull [] h = tt
number_of_users_logged-IsFull (u ∷ us) h = (
  ground (arith, number_of_users_logged_bound us),
  number_of_users_logged-IsFull us (ground (arith, number_of_users_logged_bound us)),
)

IsFull-number_of_users_logged : (us : Users) → IsFull us → number_of_users_logged us ≡ length us
unfolding number_of_users_logged
IsFull-number_of_users_logged [] h = refl
IsFull-number_of_users_logged (u ∷ us) (named, h) =
    ground (arith, IsFull-number_of_users_logged us h)

-- In a well-formed table and for a name that is not empty, `insert_user` keeps the table well
-- formed and the map of devices as it is. It answers 3 for a user who is there and -1 for a new
-- one where each of the five slots has a user, and then changes nothing; else it answers 1 and the
-- user is there, with no device. It never answers 2, which is the code for too many users.
pub insert_user-IsFull :
    (name : Bytes) (us : Users)
    → IsName name
    → IsValid us
    → IsValid (insert_user name us).1
      × ((n : Bytes) (k : ℤ)
          → IsName n
          → IsId k
          → device_of n k (insert_user name us).1 ≡ device_of n k us)
      × (((insert_user name us ≡ (user_already_connected, us)) × (devices_of name us ≢ none))
          ⊎ ((insert_user name us ≡ (error, us)) × (devices_of name us ≡ none) × IsFull us)
          ⊎ (((insert_user name us).0 ≡ success)
              × (devices_of name us ≡ none)
              × (¬ IsFull us)
              × ((ds : List Device) × (devices_of name (insert_user name us).1 ≡ some ds)
                  × (count_devices ds ≡ 0))))
insert_user-IsFull name us hn v =
    let (valid, unchanged, outcome) = insert_user_lem name us hn v in
    (
      valid,
      unchanged,
      elim outcome [
        | inl known ↦ inl known
        | inr (inl (r, stranger, full)) ↦
            inr (inl (r, stranger, number_of_users_logged-IsFull us (omega (arith, v.size))))
        | inr (inr (r, stranger, room, there)) ↦ inr (
            inr (
              r,
              stranger,
              (λ full. omega (arith, IsFull-number_of_users_logged us full, v.size)),
              there,
            ))
      ],
    )
