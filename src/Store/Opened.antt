-- ===== src/Store/Opened.antt =====
-- `DefaultKeyStore` of keystore_fs.go: the directory of the store, which is made where it is missing.
use touchid_agent.Prelude.{Option, none, some, Result, ok, err}
use touchid_agent.Text.{Text, codes}
use touchid_agent.FilePath.{join}

pub data OpenError : Type 0 where
  no_home : OpenError
  not_made not_protected : Text → Text → OpenError

made_store : Text → Option Text → Option Text → Result OpenError Text
made_store dir (some e) chmod = err (not_made dir e)
made_store dir none (some e) = err (not_protected dir e)
made_store dir none none = ok dir

-- The home directory, and how making the store's directory and closing it to others end.
unfoldable pub default_key_store : Option Text → Option Text → Option Text → Result OpenError Text
unfolding made_store
default_key_store none mkdir chmod = err no_home
default_key_store (some home) mkdir chmod =
    made_store (join (join home (codes ".touchid-agent")) (codes "keys")) mkdir chmod
