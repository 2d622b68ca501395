-- ===== src/Registry/Removal.antt =====
-- `remove_user` and `initiate_user_controller_structure`

use dropbox_simulator.Common.{
  suc, ◌≡◌, refl, sym, ◌∙◌, inl, inr, false, Bytes, same, same_iff, same_refl, List, [], ◌∷◌, ◌++◌,
  append_assoc, append-nil, length, if◌then◌else◌, none, some, arith, ap, Bool-cases, map,
}
use dropbox_simulator.Registry.{
  Device, Users, free_device, any_connected, max_users, remove_user, remove_user_loop,
  initiate_user_controller_structure,
}
use dropbox_simulator.Registry.Lookup.{devices_of, HasSlots}
use dropbox_simulator.Registry.Cases.{is_device_connected_cases}
use dropbox_simulator.Registry.Writes.{DevicesValid}
use dropbox_simulator.Registry.Invariant.{UsersValid, IsValid}

-- The user of that name gives up the slot.
pub clear_name : Bytes → Users → Users
clear_name name [] = []
clear_name name (u ∷ us) =
    if same u.name name then record u { name = [] } ∷ us else u ∷ clear_name name us

devices_of-append :
    (name : Bytes) (us vs : Users)
    → devices_of name us ≡ none
    → devices_of name (us ++ vs) ≡ devices_of name vs
unfolding devices_of
devices_of-append name [] vs e = refl
devices_of-append name (u ∷ us) vs e = ground (arith, devices_of-append name us vs)

-- Without a user of that name the loop changes nothing.
remove_user_loop_absent :
    (name : Bytes) (done us : Users)
    → devices_of name us ≡ none
    → remove_user_loop name done us ≡ done ++ us
unfolding remove_user_loop devices_of
remove_user_loop_absent name done [] e = sym (append-nil done)
remove_user_loop_absent name done (u ∷ us) e =
    ground
      (arith, remove_user_loop_absent name (done ++ (u ∷ [])) us, append_assoc done (u ∷ []) us)

remove_user_loop_present :
    (name : Bytes) (done us : Users) (ds : List Device)
    → same name [] ≡ false
    → devices_of name done ≡ none
    → devices_of name us ≡ some ds
    → UsersValid us
    → remove_user_loop name done us
      ≡ (if any_connected ds then done ++ us else done ++ clear_name name us)
unfolding remove_user_loop devices_of clear_name
remove_user_loop_present name done [] ds n a e v = cc
remove_user_loop_present name done (u ∷ us) ds n a e v = elim (Bool-cases (same u.name name)) [
  | inl s ↦ ground (
    arith,
    v.2,
    same_iff u.name name,
    same_iff u.name [],
    same_iff name [],
    is_device_connected_cases name (done ++ (u ∷ us)),
    devices_of-append name done (u ∷ us),
    remove_user_loop_absent name (done ++ (record u { name = [] } ∷ [])) us,
    append_assoc done (record u { name = [] } ∷ []) us,
  )
  | inr s ↦ ground (
    arith,
    remove_user_loop_present name (done ++ (u ∷ [])) us ds n,
    devices_of-append name done (u ∷ []),
    append_assoc done (u ∷ []) us,
    append_assoc done (u ∷ []) (clear_name name us),
  )
]

-- `remove_user` gives up the slot of a user with no connected device, and else changes nothing.
pub remove_user_lem :
    (name : Bytes) (us : Users) (ds : List Device)
    → same name [] ≡ false
    → devices_of name us ≡ some ds
    → IsValid us
    → remove_user name us ≡ (if any_connected ds then us else clear_name name us)
unfolding remove_user devices_of
remove_user_lem name us ds n e v = remove_user_loop_present name [] us ds n refl e v.entries

pub remove_user_absent :
    (name : Bytes) (us : Users) → devices_of name us ≡ none → remove_user name us ≡ us
unfolding remove_user
remove_user_absent name us e = remove_user_loop_absent name [] us e

pub devices_of-clear_name :
    (name m : Bytes) (us : Users)
    → same name [] ≡ false
    → same m [] ≡ false
    → UsersValid us
    → devices_of m (clear_name name us) ≡ (if same name m then none else devices_of m us)
unfolding devices_of clear_name
devices_of-clear_name name m [] n k v = ground arith
devices_of-clear_name name m (u ∷ us) n k v = ground (
  arith,
  v.2,
  same_iff [] m,
  same_iff m [],
  same_iff u.name m,
  same_iff u.name name,
  same_iff u.name [],
  same_iff name m,
  same_iff name [],
  devices_of-clear_name name m us n k v.3,
)

length-clear_name : (name : Bytes) (us : Users) → length (clear_name name us) ≡ length us
unfolding clear_name
length-clear_name name [] = refl
length-clear_name name (u ∷ us) = ground (arith, length-clear_name name us)

clear_name-UsersValid :
    (name : Bytes) (us : Users) (ds : List Device)
    → same name [] ≡ false
    → devices_of name us ≡ some ds
    → any_connected ds ≡ false
    → UsersValid us
    → UsersValid (clear_name name us)
unfolding clear_name devices_of
clear_name-UsersValid name [] ds n e c v = tt
clear_name-UsersValid name (u ∷ us) ds n e c v = elim (Bool-cases (same u.name name)) [
  | inl s ↦ rw s (v.0, v.1, inl (same_refl [], ground arith), v.3)
  | inr s ↦ rw s (
    v.0,
    v.1,
    ground (arith, v.2, devices_of-clear_name name u.name us n),
    clear_name-UsersValid name us ds n (ground arith) c v.3,
  )
]

-- `remove_user` keeps the table well formed.
pub remove_user-IsValid :
    (name : Bytes) (us : Users) (ds : List Device)
    → same name [] ≡ false
    → devices_of name us ≡ some ds
    → IsValid us
    → IsValid (remove_user name us)
remove_user-IsValid name us ds n e v = elim (Bool-cases (any_connected ds)) [
  | inl c ↦ rw (remove_user_lem name us ds n e v, c) v
  | inr c ↦
      rw (remove_user_lem name us ds n e v, c)
        (record {
          size = length-clear_name name us ∙ v.size;
          entries = clear_name-UsersValid name us ds n e c v.entries;
        })
]

freed-DevicesValid :
    (ds : List Device)
    → DevicesValid (map (λ _. free_device) ds)
      × (any_connected (map (λ _. free_device) ds) ≡ false)
      × (length (map (λ _. free_device) ds) ≡ length ds)
unfolding any_connected
freed-DevicesValid [] = (tt, refl, refl)
freed-DevicesValid (d ∷ ds) = let (v, c, l) = freed-DevicesValid ds in ((inl refl, v), c, ap suc l)

initiate-UsersValid :
    (us : Users)
    → HasSlots us
    → UsersValid (initiate_user_controller_structure us)
      × (length (initiate_user_controller_structure us) ≡ length us)
unfolding initiate_user_controller_structure same
initiate-UsersValid [] h = (tt, refl)
initiate-UsersValid (u ∷ us) h =
    let (v, l) = initiate-UsersValid us h.1 in
    let (d, c, k) = freed-DevicesValid u.devices in ((k ∙ h.0, d, inl (refl, c), v), ap suc l)

-- Whatever the arrays held, `initiate_user_controller_structure` leaves a well-formed table.
pub initiate-IsValid :
    (us : Users)
    → length us ≡ max_users
    → HasSlots us
    → IsValid (initiate_user_controller_structure us)
initiate-IsValid us size slots =
    let (v, l) = initiate-UsersValid us slots in record { size = l ∙ size; entries = v }
