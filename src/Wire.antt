-- ===== src/Wire.antt =====
-- The structs that travel as raw memory (utils/include/masterInclude.h:85-97), as an x86-64
-- machine lays them out: little-endian members at their offsets and padding at the end. The
-- padding and the arrays that the code leaves uninitialised are fields, with any bytes.
pub mod Laws
use dropbox_simulator.Common.{
  ℕ, zero, suc, ◌+◌, ◌-◌, ◌*◌, ◌/◌, ◌%◌, ◌^◌, ℤ, pos, negsuc, Bytes, List, [], ◌∷◌, ◌++◌, length,
  take, drop, ltb, if◌then◌else◌, Option, none, some,
}

unfoldable pub to_le : ℕ → ℕ → Bytes
to_le zero v = []
to_le (suc k) v = (v % 256) ∷ to_le k (v / 256)

unfoldable pub from_le : Bytes → ℕ
from_le [] = 0
from_le (b ∷ bs) = b + 256 * from_le bs

-- A 32-bit two's complement `int`, as its bits and back.
unfoldable pub int_bits : ℤ → ℕ
int_bits (pos n) = n % 2 ^ 32
int_bits (negsuc n) = 2 ^ 32 - 1 - n % 2 ^ 32

unfoldable pub bits_int : ℕ → ℤ
bits_int w = if ltb w (2 ^ 31) then pos w else negsuc (2 ^ 32 - 1 - w)

abbrev pub info_size : ℕ
info_size = 100

-- `commandPacket`, 120 bytes.
pub record CommandPacket : Type 0 where
  pub packet_type : ℕ
  pub command : ℕ
  pub additional_info : Bytes
  pub padding : Bytes

-- `connection_t`, 128 bytes.
pub record Connection : Type 0 where
  pub packet_type : ℕ
  pub socket_type : ℕ
  pub device : ℤ
  pub username : Bytes
  pub socket : ℤ
  pub padding : Bytes

abbrev pub command_size : ℕ
command_size = 120

abbrev pub connection_size : ℕ
connection_size = 128

-- The `sizeof` bytes of the struct.
unfoldable pub encode_command : CommandPacket → Bytes
encode_command c =
    take command_size
      (to_le 8 c.packet_type ++ (to_le 8 c.command ++ (c.additional_info ++ c.padding)))

unfoldable pub decode_command : Bytes → CommandPacket
decode_command bs = record {
  packet_type = from_le (take 8 bs);
  command = from_le (take 8 (drop 8 bs));
  additional_info = take 100 (drop 8 (drop 8 bs));
  padding = drop 100 (drop 8 (drop 8 bs));
}

unfoldable pub encode_connection : Connection → Bytes
encode_connection c = take connection_size (
    to_le 8 c.packet_type
    ++ (to_le 8 c.socket_type
        ++ (to_le 4 (int_bits c.device)
            ++ (c.username ++ (to_le 4 (int_bits c.socket) ++ c.padding)))))

unfoldable pub decode_connection : Bytes → Connection
decode_connection bs =
    let after_types = drop 8 (drop 8 bs) in
    let name_on = drop 4 after_types in
    let socket_on = drop 100 name_on in
    record {
      packet_type = from_le (take 8 bs);
      socket_type = from_le (take 8 (drop 8 bs));
      device = bits_int (from_le (take 4 after_types));
      username = take 100 name_on;
      socket = bits_int (from_le (take 4 socket_on));
      padding = drop 4 socket_on;
    }

-- `strcpy` into an array that holds `old`: nothing, if the text and its NUL do not fit.
unfoldable pub strcpy : Bytes → Bytes → Option Bytes
strcpy old s =
    if ltb (length s) (length old) then some (s ++ (0 ∷ drop (suc (length s)) old)) else none
