-- ===== src/Registry/Writes.antt =====
-- What a lookup finds after a write through a pointer.
use mathlib.Core.Option
use dropbox_simulator.Common.{
  ◌≡◌, ◌⊎◌, false, ℤ, int_eq, int_eq_iff, Bytes, same, same_iff, List, [], ◌∷◌, if◌then◌else◌, none,
  arith,
}
use dropbox_simulator.Registry.{Device, Users, unused, free_device}
use dropbox_simulator.Registry.Lookup.{devices_of, on_user, device_with, on_device}

pub devices_of-on_user :
    (n m : Bytes) (f : List Device → List Device) (us : Users)
    → devices_of n (on_user m f us)
      ≡ (if same m n then Option.map f (devices_of m us) else devices_of n us)
unfolding devices_of on_user
devices_of-on_user n m f [] = ground arith
devices_of-on_user n m f (u ∷ us) =
    ground (arith, same_iff m n, same_iff u.name n, same_iff u.name m, devices_of-on_user n m f us)

-- A write that keeps the id.
pub device_with-on_device_keep :
    (x k : ℤ) (f : Device → Device) (ds : List Device)
    → ((d : Device) → (f d).id ≡ d.id)
    → device_with x (on_device k f ds)
      ≡ (if int_eq k x then Option.map f (device_with k ds) else device_with x ds)
unfolding device_with on_device
device_with-on_device_keep x k f [] h = ground arith
device_with-on_device_keep x k f (d ∷ ds) h = ground (
  arith,
  h d,
  int_eq_iff k x,
  int_eq_iff d.id x,
  int_eq_iff d.id k,
  int_eq_iff (f d).id x,
  device_with-on_device_keep x k f ds h,
)

abbrev pub with_id : ℤ → Device → Device
with_id k d = record d { id = k }

-- The first free slot takes a new id.
pub device_with-on_device_claim :
    (x k : ℤ) (ds : List Device)
    → int_eq x unused ≡ false
    → device_with k ds ≡ none
    → device_with x (on_device unused (with_id k) ds)
      ≡ (if int_eq k x then Option.map (with_id k) (device_with unused ds) else device_with x ds)
unfolding device_with on_device
device_with-on_device_claim x k [] h fresh = ground arith
device_with-on_device_claim x k (d ∷ ds) h fresh = ground (
  arith,
  int_eq_iff k x,
  int_eq_iff d.id x,
  int_eq_iff d.id k,
  int_eq_iff d.id unused,
  int_eq_iff x unused,
  device_with-on_device_claim x k ds h,
)

-- A slot that is free holds nothing, and one that is taken has an id of its own.
abbrev pub SlotValid : Device → List Device → Type 0
SlotValid d ds = (d ≡ free_device) ⊎ ((int_eq d.id unused ≡ false) × (device_with d.id ds ≡ none))

abbrev pub DevicesValid : List Device → Type 0
DevicesValid [] = Unit
DevicesValid (d ∷ ds) = SlotValid d ds × DevicesValid ds

-- A slot that is freed.
pub device_with-on_device_free :
    (x k : ℤ) (ds : List Device)
    → int_eq x unused ≡ false
    → DevicesValid ds
    → device_with x (on_device k (λ _. free_device) ds)
      ≡ (if int_eq k x then none else device_with x ds)
unfolding device_with on_device
device_with-on_device_free x k [] h v = ground arith
device_with-on_device_free x k (d ∷ ds) h v = ground (
  arith,
  int_eq_iff k x,
  int_eq_iff d.id x,
  int_eq_iff d.id k,
  int_eq_iff x unused,
  device_with-on_device_free x k ds h v.1,
)

pub on_device_keep-DevicesValid :
    (k : ℤ) (f : Device → Device) (ds : List Device)
    → ((d : Device) → (f d).id ≡ d.id)
    → int_eq k unused ≡ false
    → DevicesValid ds
    → DevicesValid (on_device k f ds)
unfolding device_with on_device
on_device_keep-DevicesValid k f [] h n v = tt
on_device_keep-DevicesValid k f (d ∷ ds) h n v = ground (
  arith,
  h d,
  int_eq_iff d.id k,
  int_eq_iff k d.id,
  device_with-on_device_keep d.id k f ds h,
  on_device_keep-DevicesValid k f ds h n v.1,
)

pub on_device_claim-DevicesValid :
    (k : ℤ) (ds : List Device)
    → int_eq k unused ≡ false
    → device_with k ds ≡ none
    → DevicesValid ds
    → DevicesValid (on_device unused (with_id k) ds)
unfolding device_with on_device
on_device_claim-DevicesValid k [] n fresh v = tt
on_device_claim-DevicesValid k (d ∷ ds) n fresh v = ground (
  arith,
  int_eq_iff d.id k,
  int_eq_iff k d.id,
  int_eq_iff k unused,
  device_with-on_device_claim d.id k ds,
  on_device_claim-DevicesValid k ds n,
)

pub on_device_free-DevicesValid :
    (k : ℤ) (ds : List Device) → DevicesValid ds → DevicesValid (on_device k (λ _. free_device) ds)
unfolding device_with on_device
on_device_free-DevicesValid k [] v = tt
on_device_free-DevicesValid k (d ∷ ds) v = ground (
  arith,
  int_eq_iff d.id k,
  int_eq_iff k d.id,
  device_with-on_device_free d.id k ds,
  on_device_free-DevicesValid k ds v.1,
)
