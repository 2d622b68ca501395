-- ===== src/Server/Configuration.antt =====
-- Who a server is: `getBackupServersIPs`, which reads server.txt, and the functions that keep what
-- it reads (server-side/source/Server.cpp:297-435). The allocator is a parameter: `heap n` are the
-- bytes that `malloc(n)` makes usable, which are `n` or more.
pub mod Numbers
pub mod Reading
pub mod Settings
use dropbox_simulator.Common.{
  ℕ, zero, suc, ◌+◌, ◌-◌, ◌*◌, ◌^◌, Bool, true, false, ◌&&◌, ◌||◌, ℤ, pos, negsuc, Bytes, text,
  c_string, same, List, [], ◌∷◌, ◌++◌, length, ltb, leb, ◌==◌, if◌then◌else◌, Option, none, some,
}
use dropbox_simulator.Wire.{strcpy}
use dropbox_simulator.Instruction.{strtok, ◌>>=◌}

abbrev pub newline : ℕ
newline = 0x0a

abbrev pub is_digit : ℕ → Bool
is_digit b = leb 0x30 b && leb b 0x39

abbrev pub is_space : ℕ → Bool
is_space b = b == 0x20 || (leb 0x09 b && leb b 0x0d)

-- The number at the start of a text.
unfoldable pub value : ℕ → Bytes → ℕ
value n [] = n
value n (b ∷ bs) = if is_digit b then value (n * 10 + (b - 0x30)) bs else n

unfoldable pub skip_space : Bytes → Bytes
skip_space [] = []
skip_space (b ∷ bs) = let rest = skip_space bs in if is_space b then rest else b ∷ bs

-- An `int` of this size, if there is one.
abbrev pub positive : ℕ → Option ℤ
positive n = if ltb n (2 ^ 31) then some (pos n) else none

unfoldable pub negative : ℕ → Option ℤ
negative zero = some (pos 0)
negative (suc n) = if ltb n (2 ^ 31) then some (negsuc n) else none

unfoldable pub signed : Bytes → Option ℤ
signed [] = some (pos 0)
signed (b ∷ bs) =
    if b == 0x2d
    then negative (value 0 bs)
    else if b == 0x2b
    then positive (value 0 bs)
    else positive (value 0 (b ∷ bs))

-- `atoi`, undefined for a number that is no `int`.
abbrev pub atoi : Bytes → Option ℤ
atoi s = signed (skip_space s)

-- The stream, with the line that was read last.
pub record Reader : Type 0 where
  pub rest : Bytes
  pub good : Bool
  pub line : Bytes

unfoldable pub line_of : Bytes → Bytes
line_of [] = []
line_of (b ∷ bs) = if b == newline then [] else b ∷ line_of bs

-- What follows the first newline; `none` without one.
unfoldable pub after_line : Bytes → Option Bytes
after_line [] = none
after_line (b ∷ bs) = let later = after_line bs in if b == newline then some bs else later

-- `getline(file_server, line)`: at the end of the stream the line stays as it is.
unfoldable pub getline : Reader → Reader
getline r =
    if r.good
    then elim (after_line r.rest) [
      | none ↦ record { rest = []; good = false; line = line_of r.rest }
      | some later ↦ record { rest = later; good = true; line = line_of r.rest }
    ]
    else r

-- `line.c_str()`
abbrev pub c_str : Bytes → Option Bytes
c_str line = c_string (line ++ (0 ∷ []))

-- The address of a line, or of an `AddressInfo`.
pub record Address : Type 0 where
  pub ip : Bytes
  pub port : ℤ

-- The members of `Server`, and of its `infoAsPrimary` and `infoAsSecondary`.
pub record Identity : Type 0 where
  pub is_primary : Bool
  pub id : ℤ
  pub my : Address
  pub primary : Address
  pub secondary : Address
  pub info_as_primary : ℤ × Address
  pub info_as_secondary : ℤ × Address
  pub primary_info : Address
  pub secondary_info : Address

-- The line of the number of a server.
unfoldable pub read_id : Bytes → Option ℤ
read_id line = c_str line >>= λ number. atoi number

module _ (heap : ℕ → Bytes) where
  -- `malloc(strlen(s))` and `strcpy`.
  unfoldable pub copy_of : Bytes → Option Bytes
  copy_of s = strcpy (heap (length s)) s >>= λ copy. c_string copy

  -- The five lines that read an address. `strlen` of a null pointer, and its `atoi`, are undefined.
  unfoldable pub read_address : Bytes → Option Address
  read_address line = c_str line >>= λ typed. strcpy (heap (length line)) typed >>= λ temp.
      c_string temp >>= λ whole. strtok whole >>= λ (parts, later). copy_of parts >>= λ ip.
      strtok later >>= λ (number, end).
      atoi number >>= λ port. some (record { ip = ip; port = port })

  -- `secondary_set_info` and its kin copy the text once more.
  unfoldable pub set_info : Address → Option Address
  set_info a = copy_of a.ip >>= λ ip. some (record a { ip = ip })

  unfoldable pub read_primary : Reader → Identity → Option Identity
  read_primary r0 old =
      let r1 = getline r0 in
      let r2 = getline r1 in
      read_id r1.line >>= λ id. read_address r2.line >>= λ my. set_info my >>= λ info.
      some (record old { is_primary = true; id = id; my = my; info_as_primary = (id, info) })

  unfoldable pub read_secondary : Reader → Identity → Option Identity
  read_secondary r0 old =
      let r1 = getline r0 in
      let r2 = getline r1 in
      let r3 = getline r2 in
      let r4 = getline r3 in
      read_id r0.line >>= λ unused_id. read_id r1.line >>= λ id. read_address r2.line >>= λ my.
      read_address r3.line >>= λ primary. read_address r4.line >>= λ secondary.
      set_info my >>= λ info. set_info primary >>= λ primary_info.
      set_info secondary >>= λ secondary_info. some (record old {
        is_primary = false;
        id = id;
        my = my;
        primary = primary;
        secondary = secondary;
        info_as_secondary = (id, info);
        primary_info = primary_info;
        secondary_info = secondary_info;
      })

  -- `getBackupServersIPs`, of a server.txt that is there with these bytes, or is not.
  unfoldable pub get_backup_servers_ips : Option Bytes → Identity → Option Identity
  get_backup_servers_ips none old = some old
  get_backup_servers_ips (some bytes) old =
      let r = getline (record { rest = bytes; good = true; line = [] }) in
      if same r.line (text "*") then read_primary r old else read_secondary r old
