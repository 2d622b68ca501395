-- ===== src/Instruction/Listing.antt =====
-- What `list_client` prints on the terminal of the client (utils/source/Instruction.cpp:150-188).
-- What `opendir` and `readdir`, `stat`, and `localtime` with `strftime` give are parameters; what
-- `perror` writes, on the error stream, is left out.
use dropbox_simulator.Common.{
  ℕ, ◌≡◌, refl, ap, ◌∙◌, sym, Bool-cases, inl, inr, Bytes, text, List, [], ◌∷◌, ◌++◌, map, concat,
  if◌then◌else◌, Option, none, some,
}
use dropbox_simulator.Server.Commands.Listing.{
  FileStatus, entry_lines, is_listed, listed, listing_loop, listing_loop_lem,
}

-- `PATH_TO_SYNC_DIR`
abbrev pub path_to_sync_dir : Bytes
path_to_sync_dir = text "../cmake-build-debug/sync_dir/"

-- The loop over the directory.
unfoldable pub list_client_loop : (Bytes → Option FileStatus) → (ℕ → Bytes) → List Bytes → Bytes
list_client_loop stat format_time [] = []
list_client_loop stat format_time (name ∷ names) =
    let rest = list_client_loop stat format_time names in
    if is_listed name
    then elim (stat (path_to_sync_dir ++ name)) [
      | none ↦ rest
      | some status ↦ entry_lines format_time status name ++ rest
    ]
    else rest

abbrev announcement : Bytes
announcement = text "[Instruction] List client function called...\n"

-- `list_client`
unfoldable pub list_client :
    (Bytes → Option (List Bytes)) → (Bytes → Option FileStatus) → (ℕ → Bytes) → Bytes
list_client readdir stat format_time = announcement ++ elim (readdir path_to_sync_dir) [
  | none ↦ []
  | some names ↦ list_client_loop stat format_time names
]

list_client_loop_lem :
    (stat : Bytes → Option FileStatus) (format_time : ℕ → Bytes) (status : Bytes → FileStatus)
    (names : List Bytes)
    → ((name : Bytes) → stat (path_to_sync_dir ++ name) ≡ some (status name))
    → list_client_loop stat format_time names
      ≡ concat (map (λ name. entry_lines format_time (status name) name) (listed names))
unfolding list_client_loop listed
list_client_loop_lem stat format_time status [] e = refl
list_client_loop_lem stat format_time status (name ∷ names) e = elim (Bool-cases (is_listed name)) [
  | inl shown ↦
      rw (shown, e name)
        (ap (λ o. entry_lines format_time (status name) name ++ o)
          (list_client_loop_lem stat format_time status names e))
  | inr hidden ↦ rw hidden (list_client_loop_lem stat format_time status names e)
]

-- The listing has every name of the directory but "." and "..", once and in its order, each with
-- the times of that file. (For a directory that can be opened and files whose status can be read.)
pub list_client_lem :
    (readdir : Bytes → Option (List Bytes)) (stat : Bytes → Option FileStatus)
    (format_time : ℕ → Bytes) (status : Bytes → FileStatus) (names : List Bytes)
    → readdir path_to_sync_dir ≡ some names
    → ((name : Bytes) → stat (path_to_sync_dir ++ name) ≡ some (status name))
    → list_client readdir stat format_time
      ≡ announcement
        ++ concat (map (λ name. entry_lines format_time (status name) name) (listed names))
unfolding list_client
list_client_lem readdir stat format_time status names opened e =
    rw opened (ap (λ o. announcement ++ o) (list_client_loop_lem stat format_time status names e))

-- Over the same names, and where each file has the times of the server's directory, the two loops
-- print the same.
pub list_client_loop-listing_loop :
    (stat stat_server : Bytes → Option FileStatus) (format_time : ℕ → Bytes) (path : Bytes)
    (status : FileStatus) (names : List Bytes)
    → ((name : Bytes) → stat (path_to_sync_dir ++ name) ≡ some status)
    → stat_server path ≡ some status
    → list_client_loop stat format_time names ≡ listing_loop stat_server format_time path names
list_client_loop-listing_loop stat stat_server format_time path status names e s =
    list_client_loop_lem stat format_time (λ _. status) names e
    ∙ sym (listing_loop_lem stat_server format_time path status names s)
