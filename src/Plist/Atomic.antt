-- ===== src/Plist/Atomic.antt =====
-- `writePlistAtomically` and `reloadPlist` of plist_darwin.go, with each call of the system that can fail.
use touchid_agent.Prelude.{
  ℕ, false, [], Option, none, some, Result, ok, err, ◌≡◌, ◌⊎◌, inl, inr, refl, if◌then◌else◌, Bool,
}
use touchid_agent.Text.{Text, equal, equal_refl}

pub record File : Type 0 where
  pub text : Text
  pub mode : ℕ

-- What stands at a path.
abbrev pub Files : Type 0
Files = Text → Option File

abbrev pub with_file : Text → Option File → Files → Files
with_file path f fs q = if equal path q then f else fs q

-- `plistFileMode`, and the mode of a file from os.CreateTemp
abbrev pub plist_file_mode : ℕ
plist_file_mode = 420

abbrev pub temp_file_mode : ℕ
temp_file_mode = 384

-- How the calls end, in their order. A write that fails leaves a part of the text; os.CreateTemp gives
-- the name of the temporary file.
pub record WriteCalls : Type 0 where
  pub mkdir_error : Option Text
  pub create_temp : Result Text Text
  pub write_error : Option (Text × Text)
  pub chmod_error : Option Text
  pub close_error : Option Text
  pub rename_error : Option Text
  pub remove_error : Option Text

-- Whether a path is the one of the temporary file, if there is one.
abbrev pub is_temp : Result Text Text → Text → Bool
is_temp (ok tmp) q = equal tmp q
is_temp (err e) q = false

abbrev pub Written : Type 0
Written = Result Text (Unit {0}) × Files

module _ (calls : WriteCalls) (path content : Text) where
  rename : Text → Option Text → Files → Written
  rename tmp (some e) fs = (err e, fs)
  rename tmp none fs = (ok tt, with_file tmp none (with_file path (fs tmp) fs))

  close : Text → Option Text → Files → Written
  unfolding rename
  close tmp (some e) fs = (err e, fs)
  close tmp none fs = rename tmp calls.rename_error fs

  chmod : Text → Option Text → Files → Written
  unfolding close
  chmod tmp (some e) fs = (err e, fs)
  chmod tmp none fs =
      close tmp calls.close_error
        (with_file tmp (some (record { text = content; mode = plist_file_mode })) fs)

  write : Text → Option (Text × Text) → Files → Written
  unfolding chmod
  write tmp (some (e, part)) fs =
      (err e, with_file tmp (some (record { text = part; mode = temp_file_mode })) fs)
  write tmp none fs =
      chmod tmp calls.chmod_error
        (with_file tmp (some (record { text = content; mode = temp_file_mode })) fs)

  -- The deferred removal, which does nothing behind a rename.
  clean_up : Text → Option Text → Written → Written
  clean_up tmp (some e) (r, fs) = (r, fs)
  clean_up tmp none (r, fs) = (r, with_file tmp none fs)

  in_temp : Result Text Text → Files → Written
  unfolding write clean_up
  in_temp (err e) fs = (err e, fs)
  in_temp (ok tmp) fs = clean_up tmp calls.remove_error (
      write tmp calls.write_error
        (with_file tmp (some (record { text = []; mode = temp_file_mode })) fs))

  made : Option Text → Files → Written
  unfolding in_temp
  made (some e) fs = (err e, fs)
  made none fs = in_temp calls.create_temp fs

  unfoldable pub write_plist_atomically : Files → Written
  unfolding made
  write_plist_atomically fs = made calls.mkdir_error fs

  -- All or nothing, at every path but that of the temporary file.
  abbrev pub AtPath : Files → Text → Written → Type 0
  AtPath fs q end =
      ((end.0 ≡ ok tt)
        × (end.1 q
            ≡ with_file path (some (record { text = content; mode = plist_file_mode })) fs q))
      ⊎ ((e : Text) × (end.0 ≡ err e) × (end.1 q ≡ fs q))

  module _ (tmp q : Text) (fs : Files) (other : equal tmp q ≡ false) where
    rename-AtPath :
        (e : Option Text) (gs : Files)
        → gs q ≡ fs q
        → gs tmp ≡ some (record { text = content; mode = plist_file_mode })
        → AtPath fs q (rename tmp e gs)
    unfolding rename
    rename-AtPath (some e) gs same here = inr (e, refl, same)
    rename-AtPath none gs same here = inl (refl, rw (other, here, same) refl)

    close-AtPath :
        (e : Option Text) (gs : Files)
        → gs q ≡ fs q
        → gs tmp ≡ some (record { text = content; mode = plist_file_mode })
        → AtPath fs q (close tmp e gs)
    unfolding close
    close-AtPath (some e) gs same here = inr (e, refl, same)
    close-AtPath none gs same here = rename-AtPath calls.rename_error gs same here

    chmod-AtPath : (e : Option Text) (gs : Files) → gs q ≡ fs q → AtPath fs q (chmod tmp e gs)
    unfolding chmod
    chmod-AtPath (some e) gs same = inr (e, refl, same)
    chmod-AtPath none gs same =
        close-AtPath calls.close_error _ (rw other same) (rw (equal_refl tmp) refl)

    write-AtPath :
        (e : Option (Text × Text)) (gs : Files) → gs q ≡ fs q → AtPath fs q (write tmp e gs)
    unfolding write
    write-AtPath (some (e, part)) gs same = inr (e, refl, rw other same)
    write-AtPath none gs same = chmod-AtPath calls.chmod_error _ (rw other same)

    clean_up-AtPath :
        (e : Option Text) (end : Written) → AtPath fs q end → AtPath fs q (clean_up tmp e end)
    unfolding clean_up
    clean_up-AtPath (some e) (r, gs) h = h
    clean_up-AtPath none (r, gs) h = rw other h

  in_temp-AtPath :
      (q : Text) (fs : Files) (created : Result Text Text)
      → is_temp created q ≡ false
      → AtPath fs q (in_temp created fs)
  unfolding in_temp
  in_temp-AtPath q fs (err e) other = inr (e, refl, refl)
  in_temp-AtPath q fs (ok tmp) other =
      clean_up-AtPath tmp q fs other calls.remove_error _
        (write-AtPath tmp q fs other calls.write_error _ (rw other refl))

  made-AtPath :
      (q : Text) (fs : Files)
      → is_temp calls.create_temp q ≡ false
      → (mkdir : Option Text) → AtPath fs q (made mkdir fs)
  unfolding made
  made-AtPath q fs other (some e) = inr (e, refl, refl)
  made-AtPath q fs other none = in_temp-AtPath q fs calls.create_temp other

  cleaned_away :
      (tmp : Text) (e : Option Text) (end : Written) → e ≡ none → (clean_up tmp e end).1 tmp ≡ none
  unfolding clean_up
  cleaned_away tmp none (r, gs) h = rw (equal_refl tmp) refl
  cleaned_away tmp (some e) (r, gs) h = absurd (cc)

  in_temp-no_temp :
      (tmp : Text) (fs : Files) (created : Result Text Text)
      → created ≡ ok tmp
      → calls.remove_error ≡ none
      → (in_temp created fs).1 tmp ≡ none
  unfolding in_temp
  in_temp-no_temp tmp fs created h removed = rw h (cleaned_away tmp calls.remove_error _ removed)

  made-no_temp :
      (tmp : Text) (fs : Files)
      → calls.create_temp ≡ ok tmp
      → calls.remove_error ≡ none
      → fs tmp ≡ none
      → (mkdir : Option Text) → (made mkdir fs).1 tmp ≡ none
  unfolding made
  made-no_temp tmp fs created removed fresh (some e) = fresh
  made-no_temp tmp fs created removed fresh none =
      in_temp-no_temp tmp fs calls.create_temp created removed

  -- Whatever call fails, that for the temporary file included: at each path but the temporary file's,
  -- writing the property list either ends well with the whole text at its own path and every other path
  -- as it was, or ends with an error and with every path as it was.
  pub write_plist_is_atomic :
      (q : Text) (fs : Files)
      → is_temp calls.create_temp q ≡ false
      → AtPath fs q (write_plist_atomically fs)
  unfolding write_plist_atomically
  write_plist_is_atomic q fs other = made-AtPath q fs other calls.mkdir_error

  -- Where the removal does not fail, and the name was free, no temporary file is left.
  pub write_plist_leaves_no_temp :
      (tmp : Text) (fs : Files)
      → calls.create_temp ≡ ok tmp
      → calls.remove_error ≡ none
      → fs tmp ≡ none
      → (write_plist_atomically fs).1 tmp ≡ none
  unfolding write_plist_atomically
  write_plist_leaves_no_temp tmp fs created removed fresh =
      made-no_temp tmp fs created removed fresh calls.mkdir_error
