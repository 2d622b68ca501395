-- ===== src/Server/Configuration/Settings.antt =====
-- A server.txt as it is written, and the server that has read it
-- (server-side/source/Server.cpp:297-435).
use dropbox_simulator.Common.{
  ◌∙◌, Bool, ◌&&◌, Bool-cases, inl, inr, length, none, if◌then◌else◌, ℕ, ◌≡◌, ◌<◌, ◌^◌, refl, true,
  false, pos, Bytes, text, same, [], ◌∷◌, ◌++◌, some, arith,
}
use dropbox_simulator.Instruction.{space}
use dropbox_simulator.Server.Configuration.{
  Address, Identity, newline, read_address, read_id, set_info, skip_space, signed, value,
  read_primary, read_secondary, get_backup_servers_ips,
}
use dropbox_simulator.Server.Configuration.Numbers.{decimal, atoi-decimal}
use dropbox_simulator.Server.Configuration.Reading.{
  has_room, unbound, SomePlain, decimal-Plain, Plain-NoNul, NoNewline, Plain-NoNewline,
  NoNewline-append, reading, getline_lem, read_id_lem, bound, set_info_lem, read_address_lem,
}

-- What a server.txt says: the number and the address of the server, and for a backup server those
-- of the primary and of the other backup server.
pub record Site : Type 0 where
  pub host : Bytes
  pub number : ℕ

pub data Settings : Type 0 where
  primary_server : ℕ → Site → Settings
  backup_server : ℕ → Site → Site → Site → Settings

abbrev pub address : Site → Address
address s = record { ip = s.host; port = pos s.number }

abbrev pub SiteFits : Site → Type 0
SiteFits s = SomePlain s.host × (s.number < 2 ^ 31)

abbrev pub SettingsFit : Settings → Type 0
SettingsFit (primary_server id a) = (id < 2 ^ 31) × SiteFits a
SettingsFit (backup_server id a b c) = (id < 2 ^ 31) × SiteFits a × SiteFits b × SiteFits c

abbrev pub site_line : Site → Bytes
site_line s = s.host ++ (space ∷ decimal s.number)

-- The file.
abbrev pub written : Settings → Bytes
written (primary_server id a) =
    text "*" ++ (newline ∷ (decimal id ++ (newline ∷ (site_line a ++ (newline ∷ [])))))
written (backup_server id a b c) =
    text "#"
    ++ (newline
        ∷ (decimal id
            ++ (newline
                ∷ (site_line a
                    ++ (newline ∷ (site_line b ++ (newline ∷ (site_line c ++ (newline ∷ [])))))))))

-- The server that has read it.
abbrev pub settled : Settings → Identity → Identity
settled (primary_server id a) old = record old {
  is_primary = true;
  id = pos id;
  my = address a;
  info_as_primary = (pos id, address a);
}
settled (backup_server id a b c) old = record old {
  is_primary = false;
  id = pos id;
  my = address a;
  primary = address b;
  secondary = address c;
  info_as_secondary = (pos id, address a);
  primary_info = address b;
  secondary_info = address c;
}

NoNewline-decimal : (n : ℕ) → NoNewline (decimal n)
NoNewline-decimal n = Plain-NoNewline (decimal n) (decimal-Plain n).0

NoNewline-site_line : (s : Site) → SiteFits s → NoNewline (site_line s)
NoNewline-site_line s h =
    NoNewline-append s.host (space ∷ decimal s.number) (Plain-NoNewline s.host h.0.0)
      (refl, NoNewline-decimal s.number)

-- The first line of a backup server, which is read as a number and not used.
unnumbered : read_id (text "#") ≡ some (pos 0)
unfolding read_id skip_space signed value
unnumbered = refl

module _ (heap : ℕ → Bytes) where
  -- Whether the blocks that an address is copied into have room for it: that of the whole line, and
  -- those of the host, which have one size.
  abbrev pub site_room : Site → Bool
  site_room s = has_room heap (length (site_line s)) && has_room heap (length s.host)

  abbrev pub settings_room : Settings → Bool
  settings_room (primary_server id a) = site_room a
  settings_room (backup_server id a b c) = site_room a && site_room b && site_room c

  site_lem :
      (s : Site)
      → SiteFits s
      → read_address heap (site_line s) ≡ (if site_room s then some (address s) else none)
  site_lem s h =
      read_address_lem heap s.host (decimal s.number) (pos s.number) h.0 (decimal-Plain s.number)
        (atoi-decimal s.number h.1)

  site_fits :
      (s : Site)
      → SiteFits s
      → site_room s ≡ true
      → read_address heap (site_line s) ≡ some (address s)
  site_fits s h room = site_lem s h ∙ rw room refl

  site_overflows :
      (s : Site) → SiteFits s → site_room s ≡ false → read_address heap (site_line s) ≡ none
  site_overflows s h full = site_lem s h ∙ rw full refl

  info_lem :
      (s : Site) → SiteFits s → site_room s ≡ true → set_info heap (address s) ≡ some (address s)
  info_lem s h room = set_info_lem heap (address s) (Plain-NoNul s.host h.0.0) (ground arith)

  read_primary_lem :
      (id : ℕ) (a : Site) (l : Bytes) (old : Identity)
      → SettingsFit (primary_server id a)
      → read_primary heap
          (reading l (decimal id ++ (newline ∷ (site_line a ++ (newline ∷ [])))))
          old
        ≡ (if site_room a then some (settled (primary_server id a) old) else none)
  unfolding read_primary
  read_primary_lem id a l old (is_int, fits) =
      rw (getline_lem (decimal id) l (site_line a ++ (newline ∷ [])) (NoNewline-decimal id)) (
        rw (getline_lem (site_line a) (decimal id) [] (NoNewline-site_line a fits)) (
          bound _ (read_id_lem id is_int) (elim (Bool-cases (site_room a)) [
            | inr full ↦ unbound _ (site_overflows a fits full) ∙ rw full refl
            | inl room ↦
                bound _ (site_fits a fits room) (bound _ (info_lem a fits room) refl) ∙ rw room refl
          ])))

  read_secondary_lem :
      (id : ℕ) (a b c : Site) (rest : Bytes) (old : Identity)
      → SettingsFit (backup_server id a b c)
      → read_secondary heap
          (reading (text "#") (
            decimal id
            ++ (newline
                ∷ (site_line a
                    ++ (newline
                        ∷ (site_line b ++ (newline ∷ (site_line c ++ (newline ∷ rest)))))))))
          old
        ≡ (if settings_room (backup_server id a b c)
            then some (settled (backup_server id a b c) old)
            else none)
  unfolding read_secondary
  read_secondary_lem id a b c rest old (is_int, fa, fb, fc) =
      let at_c = site_line c ++ (newline ∷ rest) in
      let at_b = site_line b ++ (newline ∷ at_c) in
      let at_a = site_line a ++ (newline ∷ at_b) in
      rw (getline_lem (decimal id) (text "#") at_a (NoNewline-decimal id)) (
        rw (getline_lem (site_line a) (decimal id) at_b (NoNewline-site_line a fa)) (
          rw (getline_lem (site_line b) (site_line a) at_c (NoNewline-site_line b fb)) (
            rw (getline_lem (site_line c) (site_line b) rest (NoNewline-site_line c fc)) (
              bound _ unnumbered (
                bound _ (read_id_lem id is_int) (elim (Bool-cases (site_room a)) [
                  | inr full ↦ unbound _ (site_overflows a fa full) ∙ rw full refl
                  | inl ra ↦ bound _ (site_fits a fa ra) (elim (Bool-cases (site_room b)) [
                    | inr full ↦ unbound _ (site_overflows b fb full) ∙ rw (ra, full) refl
                    | inl rb ↦ bound _ (site_fits b fb rb) (elim (Bool-cases (site_room c)) [
                      | inr full ↦ unbound _ (site_overflows c fc full) ∙ rw (ra, rb, full) refl
                      | inl rc ↦
                          bound _ (site_fits c fc rc) (
                            bound _ (info_lem a fa ra)
                              (bound _ (info_lem b fb rb) (bound _ (info_lem c fc rc) refl)))
                          ∙ rw (ra, rb, rc) refl
                    ])
                  ])
                ]))))))

  -- A server.txt that says who a server is, written line by line, makes `getBackupServersIPs` set
  -- just these members of the server and these copies of them, and leave the others, if every
  -- block that it allocates for a line or a host has a byte more than it asks for; if one of them
  -- has not, it writes beyond the block, which is undefined. (For numbers and ports below 2 ^ 31,
  -- and addresses that are not empty and have no space, newline or NUL.)
  pub get_backup_servers_ips-written :
      (s : Settings) (old : Identity)
      → SettingsFit s
      → get_backup_servers_ips heap (some (written s)) old
        ≡ (if settings_room s then some (settled s old) else none)
  unfolding get_backup_servers_ips same
  get_backup_servers_ips-written (primary_server id a) old fits =
      rw
        (getline_lem (text "*") [] (decimal id ++ (newline ∷ (site_line a ++ (newline ∷ []))))
          (ground arith))
        (read_primary_lem id a (text "*") old fits)
  get_backup_servers_ips-written (backup_server id a b c) old fits =
      rw
        (getline_lem (text "#") []
          (decimal id
            ++ (newline
                ∷ (site_line a
                    ++ (newline ∷ (site_line b ++ (newline ∷ (site_line c ++ (newline ∷ []))))))))
          (ground arith))
        (read_secondary_lem id a b c [] old fits)
