-- ===== src/Wire/Laws.antt =====
-- What is encoded is decoded to the same.
use dropbox_simulator.Common.{
  ℕ, zero, suc, ◌/◌, ◌^◌, ◌<◌, ◌≡◌, refl, sym, ap, ◌∙◌, ℤ, pos, negsuc, Bytes, ◌++◌, length, take,
  drop, take_all, length-take, take-append, drop-append, length-append, arith,
}
use dropbox_simulator.Wire.{
  to_le, from_le, int_bits, bits_int, CommandPacket, Connection, encode_command, decode_command,
  encode_connection, decode_connection, info_size, command_size, connection_size,
}

-- The values that fit into `k` bytes.
abbrev pub Fits : ℕ → ℕ → Type 0
Fits zero v = v ≡ 0
Fits (suc k) v = Fits k (v / 256)

pub from_le-to_le : (k v : ℕ) → Fits k v → from_le (to_le k v) ≡ v
unfolding from_le to_le
from_le-to_le zero v h = sym h
from_le-to_le (suc k) v h = omega (arith, from_le-to_le k (v / 256) h)

pub length-to_le : (k v : ℕ) → length (to_le k v) ≡ k
unfolding to_le
length-to_le zero v = refl
length-to_le (suc k) v = ap suc (length-to_le k (v / 256))

-- The `int`s of 32 bits.
abbrev pub IsInt32 : ℤ → Type 0
IsInt32 (pos n) = n < 2 ^ 31
IsInt32 (negsuc n) = n < 2 ^ 31

pub bits_int-int_bits : (i : ℤ) → IsInt32 i → (bits_int (int_bits i) ≡ i) × Fits 4 (int_bits i)
unfolding bits_int int_bits
bits_int-int_bits (pos n) h = (ground arith, omega arith)
bits_int-int_bits (negsuc n) h = (ground arith, omega arith)

-- The members are in the range of their C types, and the arrays have their sizes.
pub record CommandFits (c : CommandPacket) : Type 0 where
  pub type_fits : c.packet_type < 2 ^ 64
  pub command_fits : c.command < 2 ^ 64
  pub info_fits : length c.additional_info ≡ info_size
  pub padding_fits : length c.padding ≡ 4

pub record ConnectionFits (c : Connection) : Type 0 where
  pub type_fits : c.packet_type < 2 ^ 64
  pub socket_type_fits : c.socket_type < 2 ^ 64
  pub device_fits : IsInt32 c.device
  pub name_fits : length c.username ≡ 100
  pub socket_fits : IsInt32 c.socket
  pub padding_fits : length c.padding ≡ 4

from_le_field :
    (k v : ℕ) (rest : Bytes)
    → Fits k v
    → (from_le (take k (to_le k v ++ rest)) ≡ v) × (drop k (to_le k v ++ rest) ≡ rest)
from_le_field k v rest h = (
  ap from_le (take-append k (to_le k v) rest (length-to_le k v)) ∙ from_le-to_le k v h,
  drop-append k (to_le k v) rest (length-to_le k v),
)

pub Fits-8 : (v : ℕ) → v < 2 ^ 64 → Fits 8 v
Fits-8 v h = omega arith

-- A command packet whose members are in range is read from the memory of its struct as it was
-- written, and the struct has 120 bytes.
pub decode_command-encode_command :
    (c : CommandPacket)
    → CommandFits c
    → (decode_command (encode_command c) ≡ c) × (length (encode_command c) ≡ 120)
unfolding decode_command encode_command
decode_command-encode_command c f =
    let (p, d) =
      from_le_field 8 c.packet_type (to_le 8 c.command ++ (c.additional_info ++ c.padding))
        (Fits-8 c.packet_type f.type_fits) in
    let (q, e) =
      from_le_field 8 c.command (c.additional_info ++ c.padding)
        (Fits-8 c.command f.command_fits) in
    let bytes = to_le 8 c.packet_type ++ (to_le 8 c.command ++ (c.additional_info ++ c.padding)) in
    let sized : length bytes ≡ command_size = ground (
      arith,
      length-append (to_le 8 c.packet_type) (to_le 8 c.command ++ (c.additional_info ++ c.padding)),
      length-append (to_le 8 c.command) (c.additional_info ++ c.padding),
      length-append c.additional_info c.padding,
      length-to_le 8 c.packet_type,
      length-to_le 8 c.command,
      f,
    ) in
    let whole = take_all command_size bytes (omega (arith, sized)) in
    (
      rw whole (
          rw (p, d)
            (rw (q, e)
              (rw (
                take-append 100 c.additional_info c.padding f.info_fits,
                drop-append 100 c.additional_info c.padding f.info_fits,
              )))),
      rw whole sized,
    )

-- So is a connection packet, of 128 bytes.
pub decode_connection-encode_connection :
    (c : Connection)
    → ConnectionFits c
    → (decode_connection (encode_connection c) ≡ c) × (length (encode_connection c) ≡ 128)
unfolding decode_connection encode_connection
decode_connection-encode_connection c f =
    let last = to_le 4 (int_bits c.socket) ++ c.padding in
    let named = c.username ++ last in
    let device_on = to_le 4 (int_bits c.device) ++ named in
    let type_on = to_le 8 c.socket_type ++ device_on in
    let (device_ok, device_bits) = bits_int-int_bits c.device f.device_fits in
    let (socket_ok, socket_bits) = bits_int-int_bits c.socket f.socket_fits in
    let (p, p') = from_le_field 8 c.packet_type type_on (Fits-8 c.packet_type f.type_fits) in
    let (q, q') =
      from_le_field 8 c.socket_type device_on (Fits-8 c.socket_type f.socket_type_fits) in
    let (r, r') = from_le_field 4 (int_bits c.device) named device_bits in
    let (s, s') = from_le_field 4 (int_bits c.socket) c.padding socket_bits in
    let bytes = to_le 8 c.packet_type ++ type_on in
    let sized : length bytes ≡ connection_size = ground (
      arith,
      length-append (to_le 8 c.packet_type) type_on,
      length-append (to_le 8 c.socket_type) device_on,
      length-append (to_le 4 (int_bits c.device)) named,
      length-append c.username last,
      length-append (to_le 4 (int_bits c.socket)) c.padding,
      length-to_le 8 c.packet_type,
      length-to_le 8 c.socket_type,
      length-to_le 4 (int_bits c.device),
      length-to_le 4 (int_bits c.socket),
      f,
    ) in
    let whole = take_all connection_size bytes (omega (arith, sized)) in
    (
      rw whole (
          rw (p, p')
            (rw (q, q')
              (rw (r, r')
                (rw
                  (
                    take-append 100 c.username last f.name_fits,
                    drop-append 100 c.username last f.name_fits,
                  )
                  (rw (s, s') (rw (device_ok, socket_ok))))))),
      rw whole sized,
    )

-- Whatever its members are.
pub length-encode_command : (c : CommandPacket) → length (encode_command c) < 2 ^ 31
unfolding encode_command
length-encode_command c = omega (
  arith,
  length-take command_size
      (to_le 8 c.packet_type ++ (to_le 8 c.command ++ (c.additional_info ++ c.padding))),
)

pub length-encode_connection : (c : Connection) → length (encode_connection c) < 2 ^ 31
unfolding encode_connection
length-encode_connection c = omega (
  arith,
  length-take connection_size (
      to_le 8 c.packet_type
      ++ (to_le 8 c.socket_type
          ++ (to_le 4 (int_bits c.device)
              ++ (c.username ++ (to_le 4 (int_bits c.socket) ++ c.padding))))),
)
