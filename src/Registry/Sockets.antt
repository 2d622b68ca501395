-- ===== src/Registry/Sockets.antt =====
-- The table without the sockets of its devices: what the calls on it that put users and devices in
-- make of it does not depend on them (server-side/source/Server.cpp:617-806).
use mathlib.Core.Option
use dropbox_simulator.Common.{
  ℕ, zero, suc, ◌≡◌, refl, sym, ap, ◌∙◌, ◌⊎◌, ℤ, int_eq, Bytes, same, List, [], ◌∷◌, map, modify,
  leb, if◌then◌else◌, none, some, Bool, true, false, Option-cases, Bool-cases, inl, inr, arith,
}
use dropbox_simulator.Registry.{
  Device, User, Users, Checked, defined, undefined, unused, max_users, success, get_user,
  devices_at, find_device, count_devices, number_of_devices, number_of_users_logged, claim,
  insert_user, get_device, get_available_device, modify_device, insert_device, insert_socket,
  set_socket, is_socket_type,
}
use dropbox_simulator.Registry.Lookup.{devices_of, device_with, device_of}

unfoldable pub socketless_device : Device → Device
socketless_device d = record { id = d.id; socket1 = unused; socket2 = unused; socket3 = unused }

unfoldable pub socketless_user : User → User
socketless_user u = record u { devices = map socketless_device u.devices }

-- The table, without its sockets.
abbrev pub socketless : Users → Users
socketless = map socketless_user

get_user-socketless : (n : Bytes) (us : Users) → get_user n (socketless us) ≡ get_user n us
unfolding get_user socketless_user
get_user-socketless n [] = refl
get_user-socketless n (u ∷ us) = rw (get_user-socketless n us) refl

devices_at-socketless :
    (us : Users) (i : ℕ) → devices_at (socketless us) i ≡ map socketless_device (devices_at us i)
unfolding socketless_user
devices_at-socketless [] i = refl
devices_at-socketless (u ∷ us) zero = refl
devices_at-socketless (u ∷ us) (suc i) = devices_at-socketless us i

find_device-socketless :
    (k : ℤ) (ds : List Device) → find_device k (map socketless_device ds) ≡ find_device k ds
unfolding find_device socketless_device
find_device-socketless k [] = refl
find_device-socketless k (d ∷ ds) = rw (find_device-socketless k ds) refl

pub count_devices-socketless :
    (ds : List Device) → count_devices (map socketless_device ds) ≡ count_devices ds
unfolding count_devices socketless_device
count_devices-socketless [] = refl
count_devices-socketless (d ∷ ds) = rw (count_devices-socketless ds) refl

pub number_of_users_logged-socketless :
    (us : Users) → number_of_users_logged (socketless us) ≡ number_of_users_logged us
unfolding number_of_users_logged socketless_user
number_of_users_logged-socketless [] = refl
number_of_users_logged-socketless (u ∷ us) = rw (number_of_users_logged-socketless us) refl

claim-socketless :
    (n : Bytes) (us : Users) → claim n (socketless us) ≡ ((claim n us).0, socketless (claim n us).1)
unfolding claim socketless_user
claim-socketless n [] = refl
claim-socketless n (u ∷ us) = elim (Bool-cases (same u.name [])) [
  | inl free ↦ rw free refl
  | inr taken ↦ rw (taken, claim-socketless n us) refl
]

pub insert_user-socketless :
    (n : Bytes) (us : Users)
    → insert_user n (socketless us) ≡ ((insert_user n us).0, socketless (insert_user n us).1)
unfolding insert_user
insert_user-socketless n us = elim (Option-cases (get_user n us)) [
  | inr (i, found) ↦ rw (get_user-socketless n us, found, insert_user) refl
  | inl missing ↦
      rw (get_user-socketless n us, missing, insert_user)
        (rw (number_of_users_logged-socketless us)
          (elim (Bool-cases (leb max_users (number_of_users_logged us))) [
            | inl full ↦ rw full refl
            | inr room ↦ rw room (claim-socketless n us)
          ]))
]

number_of_devices-socketless :
    (n : Bytes) (us : Users) → number_of_devices n (socketless us) ≡ number_of_devices n us
unfolding number_of_devices
number_of_devices-socketless n us = elim (Option-cases (get_user n us)) [
  | inl missing ↦ rw (get_user-socketless n us, missing, number_of_devices) refl
  | inr (i, found) ↦
      rw (get_user-socketless n us, found, number_of_devices)
        (rw (devices_at-socketless us i) (rw (count_devices-socketless (devices_at us i)) refl))
]

get_device-socketless :
    (k : ℤ) (n : Bytes) (us : Users) → get_device k n (socketless us) ≡ get_device k n us
unfolding get_device
get_device-socketless k n us = elim (Option-cases (get_user n us)) [
  | inl missing ↦ rw (get_user-socketless n us, missing, get_device) refl
  | inr (i, found) ↦
      rw (get_user-socketless n us, found, get_device)
        (rw (devices_at-socketless us i) (rw (find_device-socketless k (devices_at us i)) refl))
]

get_available_device-socketless :
    (n : Bytes) (us : Users) → get_available_device n (socketless us) ≡ get_available_device n us
unfolding get_available_device
get_available_device-socketless n us = elim (Option-cases (get_user n us)) [
  | inl missing ↦ rw (get_user-socketless n us, missing, get_available_device) refl
  | inr (i, found) ↦
      rw (get_user-socketless n us, found, get_available_device)
        (rw (number_of_devices-socketless n us) (
          rw (devices_at-socketless us i)
            (rw (find_device-socketless unused (devices_at us i)) refl)))
]

modify_devices-socketless :
    (j : ℕ) (f g : Device → Device)
    → ((d : Device) → socketless_device (g d) ≡ f (socketless_device d))
    → (ds : List Device)
    → map socketless_device (modify j g ds) ≡ modify j f (map socketless_device ds)
modify_devices-socketless j f g e [] = refl
modify_devices-socketless zero f g e (d ∷ ds) = ap (λ x. x ∷ map socketless_device ds) (e d)
modify_devices-socketless (suc j) f g e (d ∷ ds) =
    ap (◌∷◌ (socketless_device d)) (modify_devices-socketless j f g e ds)

modify_device-socketless :
    (i j : ℕ) (f g : Device → Device)
    → ((d : Device) → socketless_device (g d) ≡ f (socketless_device d))
    → (us : Users) → socketless (modify_device (i, j) g us) ≡ modify_device (i, j) f (socketless us)
unfolding modify_device socketless_user
modify_device-socketless i j f g e [] = refl
modify_device-socketless zero j f g e (u ∷ us) =
    ap (λ ds. let v : User = record u { devices = ds } in v ∷ socketless us)
      (modify_devices-socketless j f g e u.devices)
modify_device-socketless (suc i) j f g e (u ∷ us) =
    ap (◌∷◌ (socketless_user u)) (modify_device-socketless i j f g e us)

-- The result of a call, without the sockets.
abbrev pub socketless_result : Checked (ℤ × Users) → Checked (ℤ × Users)
socketless_result (defined (code, us)) = defined (code, socketless us)
socketless_result undefined = undefined

pub Checked-cases : {A : Type 0} (c : Checked A) → ((a : A) × (c ≡ defined a)) ⊎ (c ≡ undefined)
Checked-cases (defined a) = inl (a, refl)
Checked-cases undefined = inr refl

pub insert_device-socketless :
    (n : Bytes) (k : ℤ) (us : Users)
    → insert_device n k (socketless us) ≡ socketless_result (insert_device n k us)
unfolding insert_device socketless_device
insert_device-socketless n k us = elim (Option-cases (get_user n us)) [
  | inl missing ↦ rw (get_user-socketless n us, missing, insert_device) refl
  | inr (i, found) ↦
      rw (get_user-socketless n us, found, insert_device)
        (rw (get_device-socketless k n us) (elim (Checked-cases (get_device k n us)) [
          | inr wrong ↦ rw wrong refl
          | inl (some p, got) ↦ rw got refl
          | inl (none, got) ↦ rw got (
              rw (get_available_device-socketless n us)
                (elim (Checked-cases (get_available_device n us)) [
                  | inr wrong ↦ rw wrong refl
                  | inl (none, got') ↦ rw got' refl
                  | inl (some (a, b), got') ↦ rw got' (
                      ap (λ ts. defined (success, ts))
                        (sym (
                          modify_device-socketless a b (λ d. record d { id = k })
                            (λ d. record d { id = k }) (λ d. refl) us)))
                ]))
        ]))
]

set_socket-socketless :
    (socket : ℤ) (socket_type : ℕ) (d : Device)
    → socketless_device (set_socket socket socket_type d) ≡ socketless_device d
unfolding socketless_device
set_socket-socketless socket socket_type d = ground arith

modify_devices_kept :
    (j : ℕ) (g : Device → Device)
    → ((d : Device) → socketless_device (g d) ≡ socketless_device d)
    → (ds : List Device) → map socketless_device (modify j g ds) ≡ map socketless_device ds
modify_devices_kept j g e [] = refl
modify_devices_kept zero g e (d ∷ ds) = ap (λ x. x ∷ map socketless_device ds) (e d)
modify_devices_kept (suc j) g e (d ∷ ds) =
    ap (◌∷◌ (socketless_device d)) (modify_devices_kept j g e ds)

modify_device_kept :
    (i j : ℕ) (g : Device → Device)
    → ((d : Device) → socketless_device (g d) ≡ socketless_device d)
    → (us : Users) → socketless (modify_device (i, j) g us) ≡ socketless us
unfolding modify_device socketless_user
modify_device_kept i j g e [] = refl
modify_device_kept zero j g e (u ∷ us) =
    ap (λ ds. let v : User = record u { devices = ds } in v ∷ socketless us)
      (modify_devices_kept j g e u.devices)
modify_device_kept (suc i) j g e (u ∷ us) =
    ap (◌∷◌ (socketless_user u)) (modify_device_kept i j g e us)

nothing_set :
    (b : Bool) (us vs : Users) → (if b then undefined else defined us) ≡ defined vs → vs ≡ us
nothing_set true us vs e = absurd (ground arith)
nothing_set false us vs e = ground arith

-- A socket that is set does not show.
pub insert_socket-socketless :
    (n : Bytes) (k socket : ℤ) (socket_type : ℕ) (us vs : Users)
    → insert_socket n k socket socket_type us ≡ defined vs
    → socketless vs ≡ socketless us
unfolding insert_socket
insert_socket-socketless n k socket socket_type us vs e = elim (Checked-cases (get_device k n us)) [
  | inr wrong ↦ absurd (ground arith)
  | inl (none, got) ↦
      let run : insert_socket n k socket socket_type us
          ≡ (if is_socket_type socket_type then undefined else defined us) =
        rw (got, insert_socket) refl in
      ap socketless (nothing_set (is_socket_type socket_type) us vs (sym run ∙ e))
  | inl (some (i, j), got) ↦ ground (
    arith,
    modify_device_kept i j (set_socket socket socket_type)
        (set_socket-socketless socket socket_type) us,
  )
]

pub devices_of-socketless :
    (n : Bytes) (us : Users)
    → devices_of n (socketless us) ≡ Option.map (map socketless_device) (devices_of n us)
unfolding devices_of socketless_user
devices_of-socketless n [] = refl
devices_of-socketless n (u ∷ us) = elim (Bool-cases (same u.name n)) [
  | inl here ↦ rw here refl
  | inr there ↦ rw there (devices_of-socketless n us)
]

device_with-socketless :
    (k : ℤ) (ds : List Device)
    → device_with k (map socketless_device ds) ≡ Option.map socketless_device (device_with k ds)
unfolding device_with socketless_device
device_with-socketless k [] = refl
device_with-socketless k (d ∷ ds) = elim (Bool-cases (int_eq d.id k)) [
  | inl here ↦ rw here refl
  | inr there ↦ rw there (device_with-socketless k ds)
]

pub device_of-socketless :
    (n : Bytes) (k : ℤ) (us : Users)
    → device_of n k (socketless us) ≡ Option.map socketless_device (device_of n k us)
device_of-socketless n k us = elim (Option-cases (devices_of n us)) [
  | inl missing ↦ rw (devices_of-socketless n us, missing, device_of) refl
  | inr (ds, at) ↦ rw (devices_of-socketless n us, at, device_of) (device_with-socketless k ds)
]
