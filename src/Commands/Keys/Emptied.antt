-- ===== src/Commands/Keys/Emptied.antt =====
-- `-delete-all` of main.go, with and without the consent of the user.
use touchid_agent.Prelude.{
  List, [], ◌∷◌, Option, none, some, Result, ok, err, ◌≡◌, ◌⊎◌, ◌∙◌, refl, ap, keep, Bool-cases,
  inl, inr, map,
}
use touchid_agent.Text.{Text, codes, equal}
use touchid_agent.Key.{Key}
use touchid_agent.Store.{Entry, entries, list}
use touchid_agent.Store.Emptied.{is_other, delete_all-keep, list-keep, keep_twice}
use touchid_agent.Commands.{Command, Surroundings, Machine, Failure, continue, say, all_deleted}
use touchid_agent.Commands.Keys.{
  confirm_delete_all, delete_confirmed, stored_keys, listing, directory_of, cmd_delete_all,
  delete_every, entries_left, remove_pub_key_files, remove_pub_key_file, remove_at, remove_file,
  has_file, is_yes, label_of,
}

-- A command that ends well, and the next one.
then-stored :
    {es : List Entry} (end : Result Failure (Unit {0}) × Machine) (next : Command (Unit {0}))
    → end.0 ≡ ok tt
    → (next end.1).0 ≡ ok tt
    → (next end.1).1.stored ≡ es
    → ((continue (λ u. next) end).0 ≡ ok tt) × ((continue (λ u. next) end).1.stored ≡ es)
then-stored (err f, m) next h k l = absurd (cc)
then-stored (ok u, m) next h k l = (k, l)

module _ (env : Surroundings) where
  remove_file-stored :
      (path : Text) (failure : Option Text) (m : Machine)
      → ((remove_file env path failure m).0 ≡ ok tt)
        × ((remove_file env path failure m).1.stored ≡ m.stored)
  unfolding remove_file
  remove_file-stored path none m = elim (Bool-cases (has_file path m.pub_files)) [
    | inr absent ↦ rw absent (refl, refl)
    | inl there ↦ rw there (refl, refl)
  ]
  remove_file-stored path (some e) m = elim (Bool-cases (has_file path m.pub_files)) [
    | inr absent ↦ rw absent (refl, refl)
    | inl there ↦ rw there (refl, refl)
  ]

  remove_at-stored :
      (home : Option Text) (label : Text) (m : Machine)
      → ((remove_at env home label m).0 ≡ ok tt)
        × ((remove_at env home label m).1.stored ≡ m.stored)
  unfolding remove_at
  remove_at-stored none label m = (refl, refl)
  remove_at-stored (some home) label m = remove_file-stored _ _ m

  remove_pub_key_files-stored :
      (labels : List Text) (m : Machine)
      → ((remove_pub_key_files env labels m).0 ≡ ok tt)
        × ((remove_pub_key_files env labels m).1.stored ≡ m.stored)
  unfolding remove_pub_key_files remove_pub_key_file
  remove_pub_key_files-stored [] m = (refl, refl)
  remove_pub_key_files-stored (label ∷ labels) m =
      let (well, same) = remove_at-stored env.home label m in
      let (later, kept) = remove_pub_key_files-stored labels (remove_pub_key_file env label m).1 in
      then-stored (remove_pub_key_file env label m) (remove_pub_key_files env labels) well later
        (kept ∙ same)

  listing-entries : (es : List Entry) → env.read_error ≡ none → listing env es ≡ entries es
  unfolding listing directory_of
  listing-entries es readable = ap (λ o. directory_of env o es) readable

  delete_every-end :
      (m : Machine)
      → env.read_error ≡ none
      → ((name : Text) → env.removal name ≡ none)
      → delete_every env m ≡ (ok tt, record m { stored = keep is_other m.stored })
  unfolding delete_every entries_left
  delete_every-end m readable removable =
      rw (listing-entries m.stored readable, delete_all-keep env.removal m.stored removable) refl

  -- `cmdDeleteAll` where the directory can be read and no removal fails.
  cmd_delete_all-stored :
      (labels : List Text) (m : Machine)
      → env.read_error ≡ none
      → ((name : Text) → env.removal name ≡ none)
      → ((cmd_delete_all env labels m).0 ≡ ok tt)
        × ((cmd_delete_all env labels m).1.stored ≡ keep is_other m.stored)
  unfolding cmd_delete_all
  cmd_delete_all-stored labels m readable removable =
      let left : Machine = record m { stored = keep is_other m.stored } in
      let (well, same) = remove_pub_key_files-stored labels left in
      rw (delete_every-end m readable removable)
        (then-stored (remove_pub_key_files env labels left) (say all_deleted) well refl same)

  -- The user is not asked, or says yes.
  abbrev pub Consents : Option Text → Type 0
  Consents terminal =
      (terminal ≡ none) ⊎ (terminal ≡ some (codes "y")) ⊎ (terminal ≡ some (codes "Y"))

  Consents-through :
      (terminal : Option Text) (k : Key) (ks : List Key)
      → Consents terminal
      → delete_confirmed env terminal (k ∷ ks) ≡ cmd_delete_all env (map (label_of env) (k ∷ ks))
  unfolding delete_confirmed is_yes equal
  Consents-through terminal k ks (inl e) = rw e refl
  Consents-through terminal k ks (inr (inl e)) = rw e refl
  Consents-through terminal k ks (inr (inr e)) = rw e refl

  -- What is left when all keys are to be deleted: no key, and every file that is no key file.
  abbrev pub IsEmptied : Machine → Result Failure (Unit {0}) × Machine → Type 0
  IsEmptied m end =
      (end.0 ≡ ok tt)
      × (list env.format env.enclave env.key_dir (entries end.1.stored) ≡ ok [])
      × (keep is_other end.1.stored ≡ keep is_other m.stored)

  confirmed-IsEmptied :
      (terminal : Option Text) (keys : List Key) (m : Machine)
      → list env.format env.enclave env.key_dir (entries m.stored) ≡ ok keys
      → Consents terminal
      → env.read_error ≡ none
      → ((name : Text) → env.removal name ≡ none)
      → IsEmptied m (delete_confirmed env terminal keys m)
  unfolding delete_confirmed
  confirmed-IsEmptied terminal [] m listed c readable removable = (refl, listed, refl)
  confirmed-IsEmptied terminal (k ∷ ks) m listed c readable removable =
      let (well, left) = cmd_delete_all-stored (map (label_of env) (k ∷ ks)) m readable removable in
      rw (Consents-through terminal k ks c) (
        well,
        rw left (list-keep env.format env.enclave env.key_dir m.stored),
        rw left (keep_twice is_other m.stored),
      )

  -- Where the directory can be read and no removal fails, a `-delete-all` that the user is not asked about,
  -- or consents to, ends well: `List` then gives no key, and the files that are not key files are as
  -- before.
  pub confirm_delete_all-IsEmptied :
      (terminal : Option Text) (m : Machine)
      → Consents terminal
      → env.read_error ≡ none
      → ((name : Text) → env.removal name ≡ none)
      → IsEmptied m (confirm_delete_all env terminal m)
  unfolding confirm_delete_all stored_keys list
  confirm_delete_all-IsEmptied terminal m c readable removable =
      rw (listing-entries m.stored readable)
        (confirmed-IsEmptied terminal _ m refl c readable removable)
