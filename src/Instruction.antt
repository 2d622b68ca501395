-- ===== src/Instruction.antt =====
-- The command line of the client (utils/source/Instruction.cpp:1-101).
pub mod Laws
pub mod Listing
use mathlib.Core.Option
use dropbox_simulator.Common.{
  ℕ, zero, suc, ◌==◌, ℤ, pos, negsuc, int_eq, Bytes, text, c_string, same, Bool, true, false, List,
  [], ◌∷◌, ◌++◌, length, take, drop, replicate, leb, if◌then◌else◌, Option, none, some, ◌&&◌,
}
use dropbox_simulator.Wire.{strcpy}

-- The arrays hold what was last written over what was there.
pub record Instruction : Type 0 where
  pub command_name : Bytes
  pub command_id : ℤ
  pub path : Bytes
  pub filename : Bytes

-- `UPLOAD`, `DOWNLOAD`, and so on.
abbrev pub upload_id : ℤ
upload_id = pos 2

abbrev pub download_id : ℤ
download_id = pos 3

abbrev pub delete_id : ℤ
delete_id = pos 4

abbrev pub list_server_id : ℤ
list_server_id = pos 5

abbrev pub list_client_id : ℤ
list_client_id = pos 6

abbrev pub get_sync_dir_id : ℤ
get_sync_dir_id = pos 7

abbrev pub exit_id : ℤ
exit_id = pos 8

abbrev pub invalid_command : ℤ
invalid_command = negsuc 0

abbrev pub space : ℕ
space = 0x20

abbrev pub slash : ℕ
slash = 0x2f

infixl 5 ◌>>=◌
abbrev pub ◌>>=◌ : {A B : Type 0} → Option A → (A → Option B) → Option B
◌>>=◌ none f = none
◌>>=◌ (some a) f = f a

-- The bytes before the first space, and those after it.
unfoldable pub token : Bytes → Bytes × Bytes
token [] = ([], [])
token (b ∷ bs) = if b == space then ([], bs) else (b ∷ (token bs).0, (token bs).1)

-- `strtok(line, " ")`: null for a line of spaces only.
unfoldable pub strtok : Bytes → Option (Bytes × Bytes)
strtok [] = none
strtok (b ∷ bs) = if b == space then strtok bs else some (token (b ∷ bs))

-- `strtok(NULL, "")`: what is left, and null if nothing is.
unfoldable pub strtok_rest : Bytes → Option Bytes
strtok_rest [] = none
strtok_rest (b ∷ bs) = some (b ∷ bs)

-- `strncpy` of the first `n` bytes of a longer string: it writes no NUL.
unfoldable pub strncpy : Bytes → Bytes → ℕ → Option Bytes
strncpy old s n = if leb n (length old) then some (take n s ++ drop n old) else none

-- `strrchr(line, '/') - line + 1`, and 0 without a slash.
unfoldable pub directory_length : Bytes → ℕ
directory_length [] = 0
directory_length (b ∷ bs) =
    let later = directory_length bs in
    if later == 0 then (if b == slash then 1 else 0) else suc later

unfoldable pub command_of : Bytes → ℤ
command_of name =
    if same name (text "upload")
    then upload_id
    else if same name (text "download")
    then download_id
    else if same name (text "delete")
    then delete_id
    else if same name (text "list_server")
    then list_server_id
    else if same name (text "list_client")
    then list_client_id
    else if same name (text "get_sync_dir")
    then get_sync_dir_id
    else if same name (text "exit")
    then exit_id
    else invalid_command

-- `set_command_id`; `none` is undefined behaviour, here and below.
unfoldable pub set_command_id : Instruction → Option Instruction
set_command_id ins =
    c_string ins.command_name >>= λ name. some (record ins { command_id = command_of name })

-- The case of `UPLOAD` in `prepare`.
unfoldable pub prepare_upload : Bytes → Instruction → Option Instruction
prepare_upload rest ins = strtok_rest rest >>= λ line.
    if starts_with_slash line
    then (strncpy ins.path line (directory_length line) >>= λ path.
        strcpy ins.filename (drop (directory_length line) line) >>= λ filename.
        some (record ins { path = path; filename = filename }))
    else some (record ins { command_id = invalid_command })
  where
    starts_with_slash : Bytes → Bool
    starts_with_slash [] = false
    starts_with_slash (b ∷ bs) = b == slash

-- The cases of `DOWNLOAD` and `DELETE`.
unfoldable pub prepare_name : Bytes → Instruction → Option Instruction
prepare_name rest ins = strtok_rest rest >>= λ line. strcpy ins.filename line >>= λ filename.
    strcpy ins.path [] >>= λ path. some (record ins { path = path; filename = filename })

-- `prepare`
unfoldable pub prepare : Bytes → Instruction → Option Instruction
prepare line old = strtok line >>= λ (cmd_name, rest).
    strcpy old.command_name cmd_name >>= λ command_name.
    set_command_id (record old { command_name = command_name }) >>= λ ins.
    if int_eq ins.command_id upload_id
    then prepare_upload rest ins
    else if int_eq ins.command_id download_id
    then prepare_name rest ins
    else if int_eq ins.command_id delete_id
    then prepare_name rest ins
    else if int_eq ins.command_id invalid_command
    then some ins
    else (strcpy ins.path [] >>= λ path. strcpy ins.filename [] >>= λ filename.
        some (record ins { path = path; filename = filename }))

-- `reset`; the arrays have 50, 200 and 50 bytes.
unfoldable pub reset : Instruction
reset = record {
  command_name = replicate 50 0;
  command_id = invalid_command;
  path = replicate 200 0;
  filename = replicate 50 0;
}

-- `strcpy(filepath, path); strcat(filepath, filename);` of `upload_file`.
unfoldable pub file_to_upload : Instruction → Option Bytes
file_to_upload ins =
    c_string ins.path >>= λ path. c_string ins.filename >>= λ filename. some (path ++ filename)
