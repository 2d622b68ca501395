-- ===== src/Registry/Invariant.antt =====
-- The well-formedness of the table, and that every operation keeps it.

use dropbox_simulator.Common.{
  ◌<◌, ◌≤◌, ◌≡◌, refl, ◌∙◌, ◌⊎◌, inl, inr, true, false, ℤ, int_eq, Bytes, same, same_iff, List, [],
  ◌∷◌, length, if◌then◌else◌, none, some, arith, Bool-cases, leb,
}
use dropbox_simulator.Registry.{
  Device, User, Users, unused, free_device, any_connected, max_devices, max_users, claim,
  number_of_users_logged, insert_user, success, error, user_already_connected,
}
use dropbox_simulator.Registry.Lookup.{
  devices_of, on_user, device_with, on_device, HasSlots, on_device_of, get_user_cases,
}
use dropbox_simulator.Registry.Writes.{
  devices_of-on_user, DevicesValid, on_device_keep-DevicesValid, on_device_claim-DevicesValid,
  on_device_free-DevicesValid, with_id,
}

-- A free slot has no connected device, and no name stands twice.
abbrev pub NameValid : User → Users → Type 0
NameValid u us =
    ((same u.name [] ≡ true) × (any_connected u.devices ≡ false))
    ⊎ ((same u.name [] ≡ false) × (devices_of u.name us ≡ none))

abbrev pub UsersValid : Users → Type 0
UsersValid [] = Unit
UsersValid (u ∷ us) =
    (length u.devices ≡ max_devices) × DevicesValid u.devices × NameValid u us × UsersValid us

-- The arrays have their sizes, names and ids are unique, and free slots are empty.
pub record IsValid (us : Users) : Type 0 where
  pub size : length us ≡ max_users
  pub entries : UsersValid us

pub UsersValid-HasSlots : (us : Users) → UsersValid us → HasSlots us
UsersValid-HasSlots [] v = tt
UsersValid-HasSlots (u ∷ us) v = (v.0, UsersValid-HasSlots us v.3)

pub UsersValid-DevicesValid :
    (name : Bytes) (us : Users) (ds : List Device)
    → devices_of name us ≡ some ds
    → UsersValid us
    → DevicesValid ds × (length ds ≡ max_devices)
unfolding devices_of
UsersValid-DevicesValid name [] ds e v = cc
UsersValid-DevicesValid name (u ∷ us) ds e v = elim (Bool-cases (same u.name name)) [
  | inl s ↦ let e' : u.devices ≡ ds = ground arith in rw (← e') (v.1, v.0)
  | inr s ↦ UsersValid-DevicesValid name us ds (ground arith) v.3
]

length-on_user :
    (name : Bytes) (f : List Device → List Device) (us : Users)
    → length (on_user name f us) ≡ length us
unfolding on_user
length-on_user name f [] = refl
length-on_user name f (u ∷ us) = ground (arith, length-on_user name f us)

on_user-UsersValid :
    (name : Bytes) (f : List Device → List Device) (us : Users) (ds : List Device)
    → same name [] ≡ false
    → devices_of name us ≡ some ds
    → length (f ds) ≡ max_devices
    → DevicesValid (f ds)
    → UsersValid us
    → UsersValid (on_user name f us)
unfolding on_user devices_of
on_user-UsersValid name f [] ds n e l d v = tt
on_user-UsersValid name f (u ∷ us) ds n e l d v = elim (Bool-cases (same u.name name)) [
  | inl s ↦
      let e' : u.devices ≡ ds = ground arith in
      rw s (
        rw e' l,
        rw e' d,
        inr (
          ground (arith, same_iff u.name name),
          ground (arith, v.2, same_iff u.name name, same_iff name [], same_iff u.name []),
        ),
        v.3,
      )
  | inr s ↦ rw s (
    v.0,
    v.1,
    ground (
      arith,
      v.2,
      same_iff u.name name,
      same_iff name u.name,
      devices_of-on_user u.name name f us,
    ),
    on_user-UsersValid name f us ds n (ground arith) l d v.3,
  )
]

pub on_user-IsValid :
    (name : Bytes) (f : List Device → List Device) (us : Users) (ds : List Device)
    → same name [] ≡ false
    → devices_of name us ≡ some ds
    → length (f ds) ≡ max_devices
    → DevicesValid (f ds)
    → IsValid us
    → IsValid (on_user name f us)
on_user-IsValid name f us ds n e l d v = record {
  size = length-on_user name f us ∙ v.size;
  entries = on_user-UsersValid name f us ds n e l d v.entries;
}

length-on_device :
    (k : ℤ) (f : Device → Device) (ds : List Device) → length (on_device k f ds) ≡ length ds
unfolding on_device
length-on_device k f [] = refl
length-on_device k f (d ∷ ds) = ground (arith, length-on_device k f ds)

pub claim_device-IsValid :
    (name : Bytes) (k : ℤ) (us : Users) (ds : List Device)
    → same name [] ≡ false
    → int_eq k unused ≡ false
    → devices_of name us ≡ some ds
    → device_with k ds ≡ none
    → IsValid us
    → IsValid (on_device_of name unused (with_id k) us)
claim_device-IsValid name k us ds n m e fresh v =
    let (d, l) = UsersValid-DevicesValid name us ds e v.entries in
    on_user-IsValid name (on_device unused (with_id k)) us ds n e
      (length-on_device unused (with_id k) ds ∙ l) (on_device_claim-DevicesValid k ds m fresh d) v

pub free_device-IsValid :
    (name : Bytes) (k : ℤ) (us : Users) (ds : List Device)
    → same name [] ≡ false
    → devices_of name us ≡ some ds
    → IsValid us
    → IsValid (on_device_of name k (λ _. free_device) us)
free_device-IsValid name k us ds n e v =
    let (d, l) = UsersValid-DevicesValid name us ds e v.entries in
    on_user-IsValid name (on_device k (λ _. free_device)) us ds n e
      (length-on_device k (λ _. free_device) ds ∙ l) (on_device_free-DevicesValid k ds d) v

pub keep_device-IsValid :
    (name : Bytes) (k : ℤ) (f : Device → Device) (us : Users) (ds : List Device)
    → ((d : Device) → (f d).id ≡ d.id)
    → same name [] ≡ false
    → int_eq k unused ≡ false
    → devices_of name us ≡ some ds
    → IsValid us
    → IsValid (on_device_of name k f us)
keep_device-IsValid name k f us ds keep n m e v =
    let (d, l) = UsersValid-DevicesValid name us ds e v.entries in
    on_user-IsValid name (on_device k f) us ds n e (length-on_device k f ds ∙ l)
      (on_device_keep-DevicesValid k f ds keep m d) v

-- `insert_user`: the name goes into a free slot, which has no connected device.
devices_of-claim :
    (name m : Bytes) (us : Users)
    → same name [] ≡ false
    → same m [] ≡ false
    → devices_of name us ≡ none
    → devices_of m (claim name us).1 ≡ (if same name m then devices_of [] us else devices_of m us)
unfolding claim devices_of
devices_of-claim name m [] n k e = ground arith
devices_of-claim name m (u ∷ us) n k e = ground (
  arith,
  same_iff u.name [],
  same_iff u.name m,
  same_iff u.name name,
  same_iff name m,
  same_iff m [],
  same_iff name [],
  devices_of-claim name m us n k,
)

length-claim : (name : Bytes) (us : Users) → length (claim name us).1 ≡ length us
unfolding claim
length-claim name [] = refl
length-claim name (u ∷ us) = ground (arith, length-claim name us)

-- There is a free slot if fewer users are logged in than there are slots.
claim-success :
    (name : Bytes) (us : Users)
    → number_of_users_logged us < length us
    → ((claim name us).0 ≡ success) × ((ds : List Device) × (devices_of [] us ≡ some ds))
unfolding claim number_of_users_logged devices_of
claim-success name [] h = absurd (omega arith)
claim-success name (u ∷ us) h = elim (Bool-cases (same u.name [])) [
  | inl s ↦ (ground arith, (u.devices, ground arith))
  | inr s ↦
      let (p, (ds, q)) = claim-success name us (ground arith) in (ground arith, (ds, ground arith))
]

-- The devices of the first free slot.
free_slot_unconnected :
    (us : Users) (ds : List Device)
    → UsersValid us
    → devices_of [] us ≡ some ds
    → any_connected ds ≡ false
unfolding devices_of
free_slot_unconnected [] ds v e = cc
free_slot_unconnected (u ∷ us) ds v e =
    ground (arith, free_slot_unconnected us ds v.3, v.2, same_iff u.name [])

claim-UsersValid :
    (name : Bytes) (us : Users)
    → same name [] ≡ false
    → devices_of name us ≡ none
    → UsersValid us
    → UsersValid (claim name us).1
unfolding claim devices_of
claim-UsersValid name [] n e v = tt
claim-UsersValid name (u ∷ us) n e v = elim (Bool-cases (same u.name [])) [
  | inl s ↦ rw s (v.0, v.1, inr (n, ground arith), v.3)
  | inr s ↦ rw s (
    v.0,
    v.1,
    ground (
      arith,
      v.2,
      same_iff u.name name,
      same_iff name u.name,
      devices_of-claim name u.name us n s,
    ),
    claim-UsersValid name us n (ground arith) v.3,
  )
]

-- What `insert_user` promises.
abbrev pub InsertUser : Bytes → Users → ℤ × Users → Type 0
InsertUser name us r =
    ((ds : List Device) × (devices_of name us ≡ some ds) × (r ≡ (user_already_connected, us)))
    ⊎ ((devices_of name us ≡ none) × (max_users ≤ number_of_users_logged us) × (r ≡ (error, us)))
    ⊎ ((ds : List Device) × (devices_of name us ≡ none)
        × (number_of_users_logged us < max_users)
        × (r.0 ≡ success)
        × (any_connected ds ≡ false)
        × ((m : Bytes)
            → same m [] ≡ false
            → devices_of m r.1 ≡ (if same name m then some ds else devices_of m us)))

pub insert_user_cases :
    (name : Bytes) (us : Users)
    → same name [] ≡ false
    → IsValid us
    → InsertUser name us (insert_user name us)
unfolding insert_user
insert_user_cases name us n v = elim (get_user_cases name us) [
  | inr (i, ds, e, at, slot) ↦ inl (ds, at, ground arith)
  | inl (e, at) ↦ elim (Bool-cases (leb max_users (number_of_users_logged us))) [
    | inl full ↦ inr (inl (at, ground arith, ground arith))
    | inr room ↦
        let (p, (ds, q)) = claim-success name us (ground (arith, v.size)) in
        inr (
          inr (
            ds,
            at,
            ground arith,
            ground arith,
            free_slot_unconnected us ds v.entries q,
            λ m k. ground (arith, devices_of-claim name m us n k at),
          ))
  ]
]

pub insert_user-IsValid :
    (name : Bytes) (us : Users)
    → same name [] ≡ false
    → IsValid us
    → IsValid (insert_user name us).1
unfolding insert_user
insert_user-IsValid name us n v = elim (get_user_cases name us) [
  | inr (i, ds, e, at, slot) ↦ rw (e, insert_user) v
  | inl (e, at) ↦ elim (Bool-cases (leb max_users (number_of_users_logged us))) [
    | inl full ↦ rw (e, insert_user) (rw full v)
    | inr room ↦
        rw (e, insert_user)
          (rw room (record {
            size = length-claim name us ∙ v.size;
            entries = claim-UsersValid name us n at v.entries;
          }))
  ]
]
