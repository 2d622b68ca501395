-- ===== src/Tests/CommandLine.antt =====
-- A line that is typed.
use dropbox_simulator.Common.{◌≡◌, ◌++◌, refl, text, ◌∷◌, drop, some, arith}
use dropbox_simulator.Instruction.{
  Instruction, prepare, reset, space, slash, upload_id, file_to_upload, directory_length,
}
use dropbox_simulator.Instruction.Laws.{prepare-upload}
use dropbox_simulator.Common.{c_string}

prepare-upload_example :
    let line = text "home/ana/plan" in
    let name = drop (directory_length (slash ∷ line)) (slash ∷ line) in
    (ins : Instruction) × (prepare (text "upload" ++ (space ∷ (slash ∷ line))) reset ≡ some ins)
    × (ins.command_id ≡ upload_id)
    × (c_string ins.filename ≡ some name)
    × (file_to_upload ins ≡ some (slash ∷ line))
    × (directory_length name ≡ 0)
unfolding directory_length
prepare-upload_example =
    prepare-upload (text "home/ana/plan") (ground arith) (omega arith) (omega arith)

last_name : drop (directory_length (text "/home/ana/plan")) (text "/home/ana/plan") ≡ text "plan"
unfolding directory_length
last_name = refl
