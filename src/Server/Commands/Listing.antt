-- ===== src/Server/Commands/Listing.antt =====
-- What `listServerCommand` prints on the terminal of the server
-- (server-side/source/Server.cpp:1051-1097). What `opendir` and `readdir`, `stat`, and `localtime`
-- with `strftime` give are parameters.
use dropbox_simulator.Common.{
  ℕ, ◌≡◌, refl, ap, ◌∙◌, Bool, not, ◌&&◌, Bytes, text, same, List, [], ◌∷◌, ◌++◌, map, concat,
  if◌then◌else◌, Option, none, some, Bool-cases, inl, inr,
}
use dropbox_simulator.Server.{UserCurrentSocket, database_dir, slash}

-- The times of a file, in seconds.
pub record FileStatus : Type 0 where
  pub modification_time : ℕ
  pub access_time : ℕ
  pub changed_time : ℕ

-- The lines on one file.
unfoldable pub entry_lines : (ℕ → Bytes) → FileStatus → Bytes → Bytes
entry_lines format_time status name =
    text "File: "
    ++ (name
        ++ (text "\n\tModification time: "
            ++ (format_time status.modification_time
                ++ (text "\n\tAccess time: "
                    ++ (format_time status.access_time
                        ++ (text "\n\tChange time: "
                            ++ (format_time status.changed_time ++ text "\n")))))))

-- The test of the names that `readdir` gives.
abbrev pub is_listed : Bytes → Bool
is_listed name = not (same name (text ".")) && not (same name (text ".."))

-- The loop over the directory of that path.
unfoldable pub listing_loop : (Bytes → Option FileStatus) → (ℕ → Bytes) → Bytes → List Bytes → Bytes
listing_loop stat format_time path [] = []
listing_loop stat format_time path (name ∷ names) =
    let rest = listing_loop stat format_time path names in
    if is_listed name
    then elim (stat path) [
      | none ↦ rest
      | some status ↦ entry_lines format_time status name ++ rest
    ]
    else rest

-- What is printed of a directory, once it has been opened or not.
abbrev print_names : (Bytes → Option FileStatus) → (ℕ → Bytes) → Bytes → Option (List Bytes) → Bytes
print_names stat format_time path none = text "[List Server] Could not open directory"
print_names stat format_time path (some names) =
    listing_loop stat format_time path names ++ text "\n"

-- `listServerCommand`
unfoldable pub list_server_command :
    (Bytes → Option (List Bytes))
    → (Bytes → Option FileStatus)
    → (ℕ → Bytes)
    → UserCurrentSocket
    → Bytes
list_server_command readdir stat format_time current =
    let path = database_dir ++ (slash ++ current.user_name) in
    print_names stat format_time path (readdir path)

-- The names without the two that stand for the directory and its parent.
unfoldable pub listed : List Bytes → List Bytes
listed [] = []
listed (name ∷ names) = let rest = listed names in if is_listed name then name ∷ rest else rest

pub listing_loop_lem :
    (stat : Bytes → Option FileStatus) (format_time : ℕ → Bytes) (path : Bytes)
    (status : FileStatus) (names : List Bytes)
    → stat path ≡ some status
    → listing_loop stat format_time path names
      ≡ concat (map (entry_lines format_time status) (listed names))
unfolding listing_loop listed
listing_loop_lem stat format_time path status [] e = refl
listing_loop_lem stat format_time path status (name ∷ names) e =
    elim (Bool-cases (is_listed name)) [
      | inl shown ↦
          rw (shown, e)
            (ap (λ o. entry_lines format_time status name ++ o)
              (listing_loop_lem stat format_time path status names e))
      | inr hidden ↦ rw hidden (listing_loop_lem stat format_time path status names e)
    ]

-- The listing of a user's directory has every name in it but "." and "..", once and in the order
-- of the directory, each with the times of the directory, whatever those of the files are. (For a
-- directory that can be opened and whose status can be read.)
pub list_server_command_lem :
    (readdir : Bytes → Option (List Bytes)) (stat : Bytes → Option FileStatus)
    (format_time : ℕ → Bytes) (current : UserCurrentSocket) (names : List Bytes)
    (status : FileStatus)
    → readdir (database_dir ++ (slash ++ current.user_name)) ≡ some names
    → stat (database_dir ++ (slash ++ current.user_name)) ≡ some status
    → list_server_command readdir stat format_time current
      ≡ concat (map (entry_lines format_time status) (listed names)) ++ text "\n"
unfolding list_server_command
list_server_command_lem readdir stat format_time current names status opened e =
    let path = database_dir ++ (slash ++ current.user_name) in
    ap (print_names stat format_time path) opened
    ∙ ap (λ o. o ++ text "\n") (listing_loop_lem stat format_time path status names e)
