-- ===== src/Commands/Cli/Served.antt =====
-- When `main` of main.go serves requests, and what it checks of the audit log.
use touchid_agent.Prelude.{
  Bool, true, false, not, ◌&&◌, ◌||◌, [], Option, none, some, ltb, ◌≡◌, ◌↔◌, ◌⊎◌, inl, inr, arith,
  Bool-cases,
}
use touchid_agent.Text.{Text, is_empty}
use touchid_agent.Config.{Settings}
use touchid_agent.Commands.Cli.{Flags, serve, choose, with_store, switch, run_settings}

-- Some command is asked for that comes before the key store is opened, or in the `switch` before serving.
unfoldable pub asks_first : Flags → Bool
asks_first f =
    f.show_version
    || ltb 0 f.arguments
    || f.install_plist
    || f.migrate_plist
    || f.ensure_user_plist
    || f.verify_audit

unfoldable pub asks_for_keys : Flags → Bool
asks_for_keys f =
    not (is_empty f.create_key)
    || f.list_keys
    || not (is_empty f.status_path)
    || not (is_empty f.delete_key)
    || f.delete_every

-- `-launchd` alone, or `-l` with a path alone.
abbrev pub OneMode : Flags → Text → Bool → Type 0
OneMode f socket launchd =
    ((launchd ≡ true) × (f.launchd_mode ≡ true) × (is_empty f.socket_path ≡ true) × (socket ≡ []))
    ⊎ ((launchd ≡ false)
        × (f.launchd_mode ≡ false)
        × (is_empty f.socket_path ≡ false)
        × (socket ≡ f.socket_path))

module _ (socket : Text) (launchd : Bool) (s : Settings) (f : Flags) where
  switch_iff :
      (f.launchd_mode && not (is_empty f.socket_path)) ≡ false
      → (switch f ≡ serve socket launchd s)
        ↔ ((asks_for_keys f ≡ false) × OneMode f socket launchd × (s ≡ run_settings f))
  unfolding switch asks_for_keys
  switch_iff h = ground arith

  with_store_iff :
      (store_error : Option Text)
      → (with_store store_error f ≡ serve socket launchd s) ↔ (
          (asks_for_keys f ≡ false)
          × (store_error ≡ none)
          × OneMode f socket launchd
          × (s ≡ run_settings f))
  unfolding with_store
  with_store_iff (some e) = ground arith
  with_store_iff none = elim (Bool-cases (f.launchd_mode && not (is_empty f.socket_path))) [
    | inl both ↦ rw both (ground arith)
    | inr h ↦ rw h (ground (arith, switch_iff h))
  ]

  choose_iff :
      (default_path : Text) (store_error : Option Text)
      → (choose default_path store_error f ≡ serve socket launchd s)
        ↔ ((asks_first f ≡ false) × (with_store store_error f ≡ serve socket launchd s))
  unfolding choose asks_first
  choose_iff default_path store_error = ground arith

-- The program serves requests exactly where no argument and no other command is given, the key store
-- opens, and just one of `-launchd` and `-l` is given; it serves on that socket, with the flags' settings.
pub serves_iff :
    (default_path socket : Text) (store_error : Option Text) (f : Flags) (launchd : Bool)
    (s : Settings)
    → (choose default_path store_error f ≡ serve socket launchd s) ↔ (
        (asks_first f ≡ false)
        × (asks_for_keys f ≡ false)
        × (store_error ≡ none)
        × OneMode f socket launchd
        × (s ≡ run_settings f))
serves_iff default_path socket store_error f launchd s =
    let first = choose_iff socket launchd s f default_path store_error in
    let store = with_store_iff socket launchd s f store_error in
    (
      λ h. let (a, b) = first.0 h in let (c, d, e, g) = store.0 b in (a, c, d, e, g),
      λ (a, c, d, e, g). first.1 (a, store.1 (c, d, e, g)),
    )
