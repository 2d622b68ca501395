-- ===== src/Registry/Sessions.antt =====
-- The table seen as a map from a user's name and a device's id to the device, and each operation
-- as an update of that map.

use dropbox_simulator.Common.{
  ◌≡◌, false, ℤ, int_eq, Bytes, same, same_iff, List, [], ◌∷◌, ◌&&◌, if◌then◌else◌, Option, none,
  some, arith,
}
use dropbox_simulator.Registry.{Device, Users, unused, free_device}
use dropbox_simulator.Registry.Lookup.{devices_of, device_with, on_device, device_of, on_device_of}
use dropbox_simulator.Registry.Writes.{
  devices_of-on_user, device_with-on_device_keep, device_with-on_device_claim,
  device_with-on_device_free, DevicesValid, with_id,
}
use dropbox_simulator.Registry.Invariant.{IsValid, UsersValid-DevicesValid}

-- The names and the ids that stand for a user and a device.
abbrev pub IsName : Bytes → Type 0
IsName name = same name [] ≡ false

abbrev pub IsId : ℤ → Type 0
IsId id = int_eq id unused ≡ false

-- `vs` is `us` with `x` for the device `id` of `name`, and every other device as it was.
abbrev pub Updates : Bytes → ℤ → Option Device → Users → Users → Type 0
Updates name id x us vs =
    (n : Bytes) (k : ℤ)
    → IsName n
    → IsId k
    → device_of n k vs ≡ (if same name n && int_eq id k then x else device_of n k us)

free_slot_empty :
    (ds : List Device) (d : Device)
    → DevicesValid ds
    → device_with unused ds ≡ some d
    → d ≡ free_device
unfolding device_with
free_slot_empty [] d v e = cc
free_slot_empty (x ∷ ds) d v e = ground (arith, free_slot_empty ds d v.1)

pub claim_device-Updates :
    (name : Bytes) (id : ℤ) (us : Users) (ds : List Device) (d : Device)
    → IsValid us
    → devices_of name us ≡ some ds
    → device_with id ds ≡ none
    → device_with unused ds ≡ some d
    → Updates name id (some (with_id id free_device)) us (on_device_of name unused (with_id id) us)
claim_device-Updates name id us ds d v e fresh slot n k hn hk = ground (
  arith,
  same_iff name n,
  devices_of-on_user n name (on_device unused (with_id id)) us,
  device_with-on_device_claim k id ds hk fresh,
  free_slot_empty ds d,
  (UsersValid-DevicesValid name us ds e v.entries).0,
)

pub free_device-Updates :
    (name : Bytes) (id : ℤ) (us : Users) (ds : List Device)
    → IsValid us
    → devices_of name us ≡ some ds
    → Updates name id none us (on_device_of name id (λ _. free_device) us)
free_device-Updates name id us ds v e n k hn hk = ground (
  arith,
  same_iff name n,
  devices_of-on_user n name (on_device id (λ _. free_device)) us,
  device_with-on_device_free k id ds hk (UsersValid-DevicesValid name us ds e v.entries).0,
)

pub keep_device-Updates :
    (name : Bytes) (id : ℤ) (f : Device → Device) (us : Users) (ds : List Device) (d : Device)
    → ((d : Device) → (f d).id ≡ d.id)
    → devices_of name us ≡ some ds
    → device_with id ds ≡ some d
    → Updates name id (some (f d)) us (on_device_of name id f us)
keep_device-Updates name id f us ds d keep e at n k hn hk = ground (
  arith,
  same_iff name n,
  devices_of-on_user n name (on_device id f) us,
  device_with-on_device_keep k id f ds keep,
)
