-- ===== src/Operations.antt =====
-- What the commands of a user make the client do (utils/source/Instruction.cpp:80-145 and 191-199).
use dropbox_simulator.Common.{Bytes, ℤ, none, some, c_string}
use dropbox_simulator.Thread.{pure, gets, modifies, ◌>>=◌}
use dropbox_simulator.Wire.{strcpy}
use dropbox_simulator.Instruction.{file_to_upload}
use dropbox_simulator.Client.{Local, Client, or_fault}
use dropbox_simulator.Client

-- `Instruction::upload_file`; a file that is there is read whole.
unfoldable pub upload_file : ℤ → Client (Unit {0})
upload_file sockfd = do
  instruction ← gets (λ c. c.instruction)
  filepath ← or_fault (file_to_upload instruction)
  content ← gets (λ c. c.files filepath)
  elim content [
    | none ↦ pure tt
    | some bytes ↦ do
      filename ← or_fault (c_string instruction.filename)
      Client.send_file sockfd filename bytes
  ]

-- `Instruction::download_file`
unfoldable pub download_file : ℤ → Client (Unit {0})
download_file sockfd = do
  instruction ← gets (λ c. c.instruction)
  filename ← or_fault (c_string instruction.filename)
  Client.download_file sockfd filename

-- `Instruction::delete_file`
unfoldable pub delete_file : ℤ → Client (Unit {0})
delete_file sockfd = do
  instruction ← gets (λ c. c.instruction)
  filename ← or_fault (c_string instruction.filename)
  Client.delete_file sockfd filename

-- `set_filename`, on the shared instruction.
unfoldable pub set_filename : Bytes → Client (Unit {0})
set_filename name = do
  instruction ← gets (λ c. c.instruction)
  filename ← or_fault (strcpy instruction.filename name)
  modifies (λ c. record c { instruction = record instruction { filename = filename } })

-- `set_path`
unfoldable pub set_path : Bytes → Client (Unit {0})
set_path name = do
  instruction ← gets (λ c. c.instruction)
  path ← or_fault (strcpy instruction.path name)
  modifies (λ c. record c { instruction = record instruction { path = path } })
