-- ===== src/Instruction/Laws.antt =====
-- What a typed line is parsed to (utils/source/Instruction.cpp:3-46).
use dropbox_simulator.Common.{
  Bool-cases, inl, inr, same, ℕ, suc, ◌≡◌, ◌<◌, ◌≤◌, refl, ap, ◌∙◌, true, Bytes, text, c_string,
  c_string-append_nul, NoNul, [], ◌∷◌, ◌++◌, length, take, drop, replicate, take-append-drop,
  All-take, All-drop, drop-replicate, length-replicate, length-append, length-drop, ltb, leb, some,
  arith, ◌==◌,
}
use dropbox_simulator.Wire.{strcpy}
use dropbox_simulator.Instruction.{
  Instruction, upload_id, delete_id, prepare_name, slash, space, prepare, prepare_upload, reset,
  file_to_upload, directory_length, token, strtok, strtok_rest, strncpy, set_command_id, command_of,
}

strcpy-replicate :
    (n : ℕ) (s : Bytes)
    → length s < n
    → (rest : Bytes) × (strcpy (replicate n 0) s ≡ some (s ++ (0 ∷ rest)))
      × (length (s ++ (0 ∷ rest)) ≡ n)
unfolding strcpy
strcpy-replicate n s h =
    let room : ltb (length s) (length (replicate {A = ℕ} n 0)) ≡ true =
      ground (arith, length-replicate {A = ℕ} n 0) in
    (
      drop (suc (length s)) (replicate n 0),
      rw room refl,
      omega (
        arith,
        length-append s (0 ∷ drop (suc (length s)) (replicate n 0)),
        length-drop (suc (length s)) (replicate {A = ℕ} n 0),
        length-replicate {A = ℕ} n 0,
      ),
    )

strncpy-replicate :
    (n k : ℕ) (s : Bytes)
    → NoNul s
    → k ≤ length s
    → k < n
    → (path : Bytes) × (strncpy (replicate n 0) s k ≡ some path) × (c_string path ≡ some (take k s))
unfolding strncpy
strncpy-replicate n k s no_nul within h =
    let room : leb k (length (replicate {A = ℕ} n 0)) ≡ true =
      ground (arith, length-replicate {A = ℕ} n 0) in
    let (m, e) = drop-replicate {A = ℕ} 0 k n h in
    (
      take k s ++ drop k (replicate n 0),
      rw room refl,
      rw e (c_string-append_nul (take k s) (replicate m 0) (All-take _ k s no_nul)),
    )

directory_length-le : (s : Bytes) → directory_length s ≤ length s
unfolding directory_length
directory_length-le [] = omega arith
directory_length-le (b ∷ bs) = ground (arith, directory_length-le bs)

-- What follows the last slash has none.
directory_length-drop : (s : Bytes) → directory_length (drop (directory_length s) s) ≡ 0
unfolding directory_length
directory_length-drop [] = refl
directory_length-drop (b ∷ bs) = elim (Bool-cases (directory_length bs == 0)) [
  | inl none_later ↦ elim (Bool-cases (b == slash)) [
    | inl here ↦ rw (none_later, here) (ground arith)
    | inr other ↦ rw (none_later, other) (rw (none_later, other) refl)
  ]
  | inr later ↦ rw later (directory_length-drop bs)
]

abbrev named : Instruction
named = record reset { command_name = text "upload" ++ replicate 44 0; command_id = upload_id }

prepare-prepare_upload :
    (rest : Bytes) → prepare (text "upload" ++ (space ∷ rest)) reset ≡ prepare_upload rest named
unfolding prepare strtok token strcpy set_command_id command_of same reset
prepare-prepare_upload rest = refl

prepare_upload_lem :
    (line path filename : Bytes) (ins : Instruction)
    → strncpy ins.path (slash ∷ line) (directory_length (slash ∷ line)) ≡ some path
    → strcpy ins.filename (drop (directory_length (slash ∷ line)) (slash ∷ line)) ≡ some filename
    → prepare_upload (slash ∷ line) ins ≡ some (record ins { path = path; filename = filename })
unfolding prepare_upload strtok_rest
prepare_upload_lem line path filename ins e f = rw e (rw f refl)

-- The line "upload " and a path, typed into a fresh instruction, is the command to upload, and the
-- file that `upload_file` then opens is the one at that path, of which the name sent to the server
-- is what follows its last slash, so it has none. (For a path that begins with a slash, without a
-- NUL, with less than 200 bytes up to its last slash and less than 50 after it.)
pub prepare-upload :
    (line : Bytes)
    → NoNul line
    → directory_length (slash ∷ line) < 200
    → length (drop (directory_length (slash ∷ line)) (slash ∷ line)) < 50
    → (ins : Instruction) × (prepare (text "upload" ++ (space ∷ (slash ∷ line))) reset ≡ some ins)
      × (ins.command_id ≡ upload_id)
      × (c_string ins.filename ≡ some (drop (directory_length (slash ∷ line)) (slash ∷ line)))
      × (file_to_upload ins ≡ some (slash ∷ line))
      × (directory_length (drop (directory_length (slash ∷ line)) (slash ∷ line)) ≡ 0)
unfolding file_to_upload reset
prepare-upload line no_nul short_path short_name =
    let k = directory_length (slash ∷ line) in
    let full : Bytes = slash ∷ line in
    let (path, e, is_path) =
      strncpy-replicate 200 k full (refl, no_nul) (directory_length-le full) short_path in
    let (rest, f, _) = strcpy-replicate 50 (drop k full) short_name in
    let is_name : c_string (drop k full ++ (0 ∷ rest)) ≡ some (drop k full) =
      c_string-append_nul (drop k full) rest (All-drop _ k full (refl, no_nul)) in
    (
      record named { path = path; filename = drop k full ++ (0 ∷ rest) },
      prepare-prepare_upload full ∙ prepare_upload_lem line path _ named e f,
      refl,
      is_name,
      rw is_path (rw is_name (ap some (take-append-drop k full))),
      directory_length-drop full,
    )

abbrev deleting : Instruction
deleting = record reset { command_name = text "delete" ++ replicate 44 0; command_id = delete_id }

prepare-prepare_name :
    (rest : Bytes) → prepare (text "delete" ++ (space ∷ rest)) reset ≡ prepare_name rest deleting
unfolding prepare strtok token strcpy set_command_id command_of same reset
prepare-prepare_name rest = refl

empty_path : strcpy deleting.path [] ≡ some (0 ∷ replicate 199 0)
unfolding strcpy reset
empty_path = refl

-- The line "delete " and a name, typed into a fresh instruction, is the command to delete, with
-- that name in its array, which keeps its size.
pub prepare-delete :
    (b : ℕ) (bs : Bytes)
    → length (b ∷ bs) < 50
    → (ins : Instruction) × (prepare (text "delete" ++ (space ∷ (b ∷ bs))) reset ≡ some ins)
      × (ins.command_id ≡ delete_id)
      × (length ins.filename ≡ 50)
      × (length ins.path ≡ 200)
unfolding prepare_name strtok_rest reset
prepare-delete b bs short =
    let (rest, f, size) = strcpy-replicate 50 (b ∷ bs) short in
    (
      record deleting { filename = (b ∷ bs) ++ (0 ∷ rest); path = 0 ∷ replicate 199 0 },
      prepare-prepare_name (b ∷ bs) ∙ rw f (rw empty_path refl),
      refl,
      size,
      refl,
    )
