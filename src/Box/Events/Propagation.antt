-- ===== src/Box/Events/Propagation.antt =====
-- What an event makes the client send, and which events it keeps to itself
-- (client-side/source/Box.cpp:188-233, utils/source/Instruction.cpp:78-130).
use dropbox_simulator.Common.{
  ℕ, suc, ◌≡◌, ◌<◌, ◌⊎◌, inl, inr, refl, ap, ◌∙◌, true, false, ℤ, Bytes, text, List, [], ◌∷◌, ◌++◌,
  length, drop, concat, map, ltb, All, NoNul, c_string, c_string-append_nul, some, arith, Bool,
  if◌then◌else◌,
}
use dropbox_simulator.Thread.{Result, done, after}
use dropbox_simulator.Wire.{strcpy}
use dropbox_simulator.Instruction.{Instruction, file_to_upload}
use dropbox_simulator.Client.{Local, Client, send_file}
use dropbox_simulator.Client.Sending.{or_fault_lem}
use dropbox_simulator.Operations.{upload_file, delete_file, set_filename, set_path}
use dropbox_simulator.Box.Events.{
  handle_event, propagate, has_bit, in_delete, in_close_write, in_moved_from, in_moved_to, inotify,
  Poll, ready, contains,
}
use dropbox_simulator.Box.Events.Loop.{
  Event, EventFits, encode_event, handle_all, event_loop-handle_all,
}

if_false : {A : Type 0} {b : Bool} (x y : A) → b ≡ false → (if b then x else y) ≡ y
if_false x y e = ap (λ b. if b then x else y) e

does_first :
    (f g : Client (Unit {0})) (c : Local) {b : Bool} → b ≡ true → (if b then f else g) c ≡ f c
does_first f g c e = ap (λ b. (if b then f else g) c) e

does_second :
    (f g : Client (Unit {0})) (c : Local) {b : Bool} → b ≡ false → (if b then f else g) c ≡ g c
does_second f g c e = ap (λ b. (if b then f else g) c) e

propagate-silent :
    (name : Bytes) (action : Client (Unit {0})) (c : Local)
    → c.instruction_source_is_server ≡ true
    → propagate name action c ≡ (done tt, c)
unfolding propagate
propagate-silent name action c e = rw e refl

either_way :
    (b : Bool) (f g : Client (Unit {0})) (c : Local) (r : Result (Unit {0}) × Local)
    → f c ≡ r
    → g c ≡ r
    → (if b then f else g) c ≡ r
either_way true f g c r x y = x
either_way false f g c r x y = y

handle_event-silent :
    (sockfd : ℤ) (mask : ℕ) (name : Bytes) (c : Local)
    → c.instruction_source_is_server ≡ true
    → handle_event sockfd mask name c ≡ (done tt, c)
unfolding handle_event
handle_event-silent sockfd mask name c e =
    let deleted = propagate-silent name (delete_file sockfd) c e in
    let uploaded = propagate-silent name (upload_file sockfd) c e in
    either_way (has_bit mask in_delete) _ _ c _ deleted (
      either_way (has_bit mask in_close_write) _ _ c _ uploaded (
        either_way (has_bit mask in_moved_from) _ _ c _
          (either_way (contains (text ".goutputstream-") name) _ _ c _ refl deleted)
          (either_way (has_bit mask in_moved_to) _ _ c _ uploaded refl)))

handle_all-silent :
    (sockfd : ℤ) (es : List Event) (c : Local)
    → c.instruction_source_is_server ≡ true
    → handle_all sockfd es c ≡ (done tt, c)
unfolding handle_all
handle_all-silent sockfd [] c e = refl
handle_all-silent sockfd (x ∷ es) c e =
    after _ (handle_event-silent sockfd x.mask x.name c e) (handle_all-silent sockfd es c e)

-- What the server makes the client change is not sent back to the server: while the change is
-- marked as the server's, the thread reads the events of any number of files, writes nothing,
-- leaves the client as it is but for the mark, which it takes away, and goes on. (For the events
-- as the kernel writes them, one poll that finds them, and a session that goes on.)
pub inotify-silent :
    (sockfd : ℤ) (es : List Event) (later : List Poll) (c : Local)
    → All EventFits es
    → c.instruction_source_is_server ≡ true
    → c.exit_command_typed ≡ false
    → let fuel = suc (length es) in
      inotify fuel sockfd (ready (concat (map encode_event es)) ∷ later) c
      ≡ inotify fuel sockfd later (record c { instruction_source_is_server = false })
unfolding inotify
inotify-silent sockfd es later c fits marked goes_on =
    if_false _ _ goes_on
    ∙ after _ (event_loop-handle_all sockfd es c fits ∙ handle_all-silent sockfd es c marked) refl

-- The paths and names that the instruction holds after an event.
abbrev pub watched : Bytes → Instruction → Instruction
watched name i = record i {
  filename = name ++ (0 ∷ drop (suc (length name)) i.filename);
  path = text "sync_dir/" ++ (0 ∷ drop 10 i.path);
}

-- The events of a file that was written and closed, or moved in.
abbrev pub Saved : ℕ → Type 0
Saved mask =
    (has_bit mask in_delete ≡ false)
    × ((has_bit mask in_close_write ≡ true)
        ⊎ ((has_bit mask in_close_write ≡ false)
            × (has_bit mask in_moved_from ≡ false)
            × (has_bit mask in_moved_to ≡ true)))

strcpy_lem :
    (old s : Bytes)
    → length s < length old
    → strcpy old s ≡ some (s ++ (0 ∷ drop (suc (length s)) old))
unfolding strcpy
strcpy_lem old s h = let room : ltb (length s) (length old) ≡ true = ground arith in rw room refl

set_filename_lem :
    (name : Bytes) (c : Local)
    → length name < length c.instruction.filename
    → set_filename name c ≡ (
      done tt,
      record c {
        instruction = record c.instruction {
          filename = name ++ (0 ∷ drop (suc (length name)) c.instruction.filename);
        };
      },
    )
unfolding set_filename
set_filename_lem name c h = after _ (or_fault_lem (strcpy_lem c.instruction.filename name h)) refl

set_path_lem :
    (name : Bytes) (c : Local)
    → length name < length c.instruction.path
    → set_path name c ≡ (
      done tt,
      record c {
        instruction = record c.instruction {
          path = name ++ (0 ∷ drop (suc (length name)) c.instruction.path);
        };
      },
    )
unfolding set_path
set_path_lem name c h = after _ (or_fault_lem (strcpy_lem c.instruction.path name h)) refl

upload_file_lem :
    (sockfd : ℤ) (path name content : Bytes) (c : Local)
    → c_string c.instruction.path ≡ some path
    → c_string c.instruction.filename ≡ some name
    → c.files (path ++ name) ≡ some content
    → upload_file sockfd c ≡ send_file sockfd name content c
unfolding upload_file file_to_upload
upload_file_lem sockfd path name content c is_path is_name there =
    let opened : file_to_upload c.instruction ≡ some (path ++ name) =
      rw is_path (rw is_name refl) in
    after _ (or_fault_lem opened) (rw there (after _ (or_fault_lem is_name) refl))

module _ (sockfd : ℤ) (name content : Bytes) (c : Local)
    (user : c.instruction_source_is_server ≡ false) (named : NoNul name)
    (fits : length name < length c.instruction.filename)
    (room : 9 < length c.instruction.path) where
  propagate-upload_file :
      c.files (text "sync_dir/" ++ name) ≡ some content
      → propagate name (upload_file sockfd) c
        ≡ send_file sockfd name content (record c { instruction = watched name c.instruction })
  unfolding propagate
  propagate-upload_file there =
      let filename = name ++ (0 ∷ drop (suc (length name)) c.instruction.filename) in
      let c1 : Local = record c { instruction = record c.instruction { filename = filename } } in
      let c2 : Local = record c { instruction = watched name c.instruction } in
      does_second _ _ c user
      ∙ after _ (set_filename_lem name c fits) (
          after _ (set_path_lem (text "sync_dir/") c1 room) (
            upload_file_lem sockfd (text "sync_dir/") name content c2
              (c_string-append_nul (text "sync_dir/") (drop 10 c.instruction.path) (ground arith))
              (c_string-append_nul name (drop (suc (length name)) c.instruction.filename) named)
              there))

  -- A file that was written, or moved in, is sent.
  pub handle_event-send_file :
      (mask : ℕ)
      → Saved mask
      → c.files (text "sync_dir/" ++ name) ≡ some content
      → handle_event sockfd mask name c
        ≡ send_file sockfd name content (record c { instruction = watched name c.instruction })
  unfolding handle_event
  handle_event-send_file mask (kept, why) there =
      let sent = propagate-upload_file there in
      does_second _ _ c kept ∙ elim why [
        | inl closed ↦ does_first _ _ c closed ∙ sent
        | inr (still, stays, moved) ↦
            does_second _ _ c still ∙ (does_second _ _ c stays ∙ (does_first _ _ c moved ∙ sent))
      ]
