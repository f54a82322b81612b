-- ===== src/Commands/Keys/Made.antt =====
-- `-create` and `-delete` of main.go, one after the other and where they fail.
use touchid_agent.Commands.{
  Machine, Surroundings, give, Message, Failure, Command, check, continue, say, PubFile, need,
  not_converted, key_deleted, key_created, ssh_public_key,
}
use touchid_agent.Commands.Keys.{
  pub_name, without_file, has_file, self_test_key, after_generate, run_post_hook, write_in,
  hook_ended, write_pub_key_file, ssh_text, pub_path, cmd_create, write_at, cmd_delete,
  remove_pub_key_file, remove_at, remove_file, hook_environment, write_part, with_pub_file,
}
use touchid_agent.Prelude.{
  Bool, true, false, List, [], ◌∷◌, ◌++◌, Option, none, some, Result, ok, err, ◌≡◌, inl, inr, refl,
  ap, ◌∙◌, arith, All, All-append, Bool-cases, if◌then◌else◌,
}
use touchid_agent.Text.{Text, codes, equal, equal_refl, is_empty}
use touchid_agent.FilePath.{join}
use touchid_agent.FilePath.Names.{IsPlain}
use touchid_agent.FilePath.Clean.{absolute, join-join}
use touchid_agent.Key.{Key}
use touchid_agent.Policy.{CallerRule}
use touchid_agent.Policy.Parse.{parse_key_callers}
use touchid_agent.Store.{IsFaithful, Entry, generate, delete}
use touchid_agent.Store.Label.{validate_label, valid_label, contains_rune-Lacks, file_name}
use touchid_agent.Store.Created.{IsConsistent, IsReady}
use touchid_agent.Store.Removed.{delete-generate}
use touchid_agent.Commands.{◌>>=◌, Command}

pub_name-IsPlain : (label : Text) → validate_label label ≡ ok tt → IsPlain (pub_name label)
unfolding pub_name is_empty equal
pub_name-IsPlain label h = record {
  no_slash = All-append _ (codes "touchid-agent-") (label ++ codes ".pub") (omega arith) (
      All-append _ label (codes ".pub") (contains_rune-Lacks label (valid_label label h).1)
        (omega arith));
  filled = refl;
  not_dot = ground arith;
  not_dots = ground arith;
}

without_file-absent :
    (path : Text) (fs : List PubFile) → has_file path fs ≡ false → without_file path fs ≡ fs
unfolding without_file has_file
without_file-absent path [] h = refl
without_file-absent path (f ∷ fs) h = elim (Bool-cases (equal f.path path)) [
  | inl same ↦ absurd (ground arith)
  | inr differs ↦ rw differs (ap (λ r. f ∷ r) (without_file-absent path fs (rw differs at h)))
]

without_file-written :
    (path : Text) (fs : List PubFile) (f : PubFile)
    → f.path ≡ path
    → without_file path (without_file path fs ++ f ∷ []) ≡ without_file path fs
unfolding without_file
without_file-written path [] f h = rw (h, equal_refl path) refl
without_file-written path (g ∷ fs) f h = elim (Bool-cases (equal g.path path)) [
  | inl same ↦ rw same (without_file-written path fs f h)
  | inr differs ↦ rw (differs, differs) (ap (λ r. g ∷ r) (without_file-written path fs f h))
]

-- Commands that leave the store alone, and no public-key file but that of one path.
module _ (path : Text) where
  Keeps : Machine → Machine → Type 0
  Keeps m n =
      (n.stored ≡ m.stored) × (without_file path n.pub_files ≡ without_file path m.pub_files)

  IsTame : {A : Type 0} → Command A → Type 0
  IsTame c = (m : Machine) → Keeps m (c m).1

  IsTame-end :
      {A B : Type 0} (next : A → Command B) (m : Machine) (r : Result Failure A × Machine)
      → Keeps m r.1
      → ((a : A) → IsTame (next a))
      → Keeps m (continue next r).1
  unfolding Keeps IsTame
  IsTame-end next m (err e, n) k t = k
  IsTame-end next m (ok a, n) (k, l) t = let (k', l') = t a n in (k' ∙ k, l' ∙ l)

  IsTame-then :
      {A B : Type 0} (c : Command A) (next : A → Command B)
      → IsTame c
      → ((a : A) → IsTame (next a))
      → IsTame (c >>= next)
  unfolding IsTame
  IsTame-then c next t u = λ m. IsTame-end next m (c m) (t m) u

  say-IsTame : (x : Message) → IsTame (say x)
  unfolding IsTame Keeps
  say-IsTame x = λ m. (refl, refl)

  give-IsTame : {A : Type 0} (a : A) → IsTame (give a)
  unfolding IsTame Keeps
  give-IsTame a = λ m. (refl, refl)

  check-IsTame : {E A : Type 0} (f : E → Failure) (r : Result E A) → IsTame (check f r)
  unfolding IsTame Keeps
  check-IsTame f (ok a) = λ m. (refl, refl)
  check-IsTame f (err e) = λ m. (refl, refl)

  need-IsTame : {A : Type 0} (f : Failure) (o : Option A) → IsTame (need f o)
  unfolding IsTame Keeps
  need-IsTame f none = λ m. (refl, refl)
  need-IsTame f (some a) = λ m. (refl, refl)

  if-IsTame :
      {A : Type 0} (b : Bool) (c d : Command A) → IsTame c → IsTame d → IsTame (if b then c else d)
  if-IsTame true c d s t = s
  if-IsTame false c d s t = t

  module _ (env : Surroundings) where
    write_in-IsTame :
        (dir label pub_key : Text) (made : Option Text) (written : Option (Text × Option Text))
        → join dir (pub_name label) ≡ path
        → IsTame (write_in env dir label pub_key made written)
    unfolding IsTame Keeps write_in write_part with_pub_file
    write_in-IsTame dir label pub_key (some e) w h = λ m. (refl, refl)
    write_in-IsTame dir label pub_key none (some (e, none)) h = λ m. (refl, refl)
    write_in-IsTame dir label pub_key none (some (e, some part)) h =
        λ m. (refl, rw h (without_file-written path m.pub_files _ refl))
    write_in-IsTame dir label pub_key none none h =
        λ m. (refl, rw h (without_file-written path m.pub_files _ refl))

    self_test_key-IsTame : (key : Key) (touch : Bool) → IsTame (self_test_key env key touch)
    unfolding self_test_key
    self_test_key-IsTame key touch =
        IsTame-then _ _ (if-IsTame touch _ _ (say-IsTame _) (give-IsTame tt))
          (λ u. check-IsTame _ _)

    hook_ended-IsTame : (e : Option Text) → IsTame (hook_ended env e)
    unfolding hook_ended IsTame Keeps
    hook_ended-IsTame none = λ m. (refl, refl)
    hook_ended-IsTame (some e) = λ m. (refl, refl)

    run_post_hook-IsTame :
        (hook : Text) (environment : List Text) → IsTame (run_post_hook env hook environment)
    unfolding run_post_hook
    run_post_hook-IsTame hook environment =
        IsTame-then _ _ (say-IsTame _) (λ u. hook_ended-IsTame (env.hook_error hook environment))

    after_generate-IsTame :
        (label hook : Text) (touch : Bool) (key : Key)
        → ((pub_key : Text) → IsTame (write_pub_key_file env label pub_key))
        → IsTame (after_generate env label touch hook key)
    unfolding after_generate
    after_generate-IsTame label hook touch key writes =
        IsTame-then _ _ (self_test_key-IsTame key touch) (λ u.
          IsTame-then _ _ (need-IsTame not_converted (ssh_text env key.public_key)) (λ pub_key.
            IsTame-then _ _ (say-IsTame (key_created label touch)) (λ v.
              IsTame-then _ _ (say-IsTame (ssh_public_key label pub_key)) (λ w.
                IsTame-then _ _ (writes pub_key) (λ pub_file.
                  if-IsTame (is_empty hook) _ _ (give-IsTame tt) (
                    run_post_hook-IsTame hook
                      (hook_environment env label pub_key pub_file touch)))))))

ssh-IsPlain : IsPlain (codes ".ssh")
unfolding is_empty equal
ssh-IsPlain = record { no_slash = omega arith; filled = refl; not_dot = refl; not_dots = refl }

-- Where the home directory is an absolute and clean path, the public-key file is written to the path
-- that is removed.
write_pub_key_file-IsTame :
    (env : Surroundings) (p : Text) (ps : List Text) (label pub_key : Text)
    → env.home ≡ some (absolute p ps)
    → IsPlain p
    → All IsPlain ps
    → validate_label label ≡ ok tt
    → IsTame (pub_path env (absolute p ps) label) (write_pub_key_file env label pub_key)
unfolding write_pub_key_file write_at
write_pub_key_file-IsTame env p ps label pub_key at_home h hs allowed = rw at_home (
    write_in-IsTame _ env _ label pub_key env.mkdir_error env.pub_write_error (
      join-join p (codes ".ssh") (pub_name label) ps h hs ssh-IsPlain
        (pub_name-IsPlain label allowed)))

module _ (env : Surroundings) (label : Text) where
  -- What the removal of the public-key file leaves.
  remove_pub_key_file-end :
      (home : Text) (m : Machine)
      → env.home ≡ some home
      → env.pub_removal (pub_path env home label) ≡ none
      → remove_pub_key_file env label m
        ≡ (ok tt, record m { pub_files = without_file (pub_path env home label) m.pub_files })
  unfolding remove_pub_key_file remove_at remove_file
  remove_pub_key_file-end home m at_home removed =
      rw (at_home, removed)
        (elim (Bool-cases (has_file (pub_path env home label) m.pub_files)) [
          | inl there ↦ rw there refl
          | inr absent ↦
              rw (absent, without_file-absent (pub_path env home label) m.pub_files absent) refl
        ])

  cmd_delete-end :
      (home : Text) (m : Machine) (left : List Entry)
      → env.home ≡ some home
      → env.pub_removal (pub_path env home label) ≡ none
      → validate_label label ≡ ok tt
      → delete env.removal label m.stored ≡ (ok tt, left)
      → cmd_delete env label m ≡ (
        ok tt,
        record {
          stored = left;
          pub_files = without_file (pub_path env home label) m.pub_files;
          printed = m.printed ++ key_deleted label ∷ [];
        },
      )
  unfolding cmd_delete
  cmd_delete-end home m left at_home removed allowed deleted =
      rw
        (
          allowed,
          deleted,
          remove_pub_key_file-end home (record m { stored = left }) at_home removed,
        )
        refl

  -- `cmdCreate` once the key is in the store.
  cmd_create-stored :
      (hook callers : Text) (touch : Bool) (rules : List CallerRule) (m : Machine) (k : Key)
      (left : List Entry)
      → validate_label label ≡ ok tt
      → parse_key_callers callers ≡ ok rules
      → generate env.format env.enclave env.faults label touch rules m.stored ≡ (ok k, left)
      → cmd_create env label touch hook callers m
        ≡ after_generate env label touch hook k (record m { stored = left })
  unfolding cmd_create
  cmd_create-stored hook callers touch rules m k left allowed parsed made =
      rw (allowed, parsed, made) refl

  -- Where `Generate` has what it needs, encodings are read back, the Secure Enclave answers consistently and
  -- the home directory is an absolute and clean path, `-create` puts the key into the store; whatever
  -- happens then, in the self-test, in writing the public-key file or in the hook, a `-delete` of the label
  -- whose removals do not fail ends well, and leaves the store as it was before the two, and the public-key
  -- files without the one of the label.
  pub delete-create :
      (p : Text) (ps : List Text) (hook callers : Text) (touch : Bool) (rules : List CallerRule)
      (m : Machine)
      → IsFaithful env.format
      → IsConsistent env.enclave
      → IsReady env.enclave env.faults label callers touch rules m.stored
      → env.home ≡ some (absolute p ps)
      → IsPlain p
      → All IsPlain ps
      → env.removal (file_name label) ≡ none
      → env.pub_removal (pub_path env (absolute p ps) label) ≡ none
      → let after = cmd_delete env label (cmd_create env label touch hook callers m).1 in
        (after.0 ≡ ok tt)
        × (after.1.stored ≡ m.stored)
        × (after.1.pub_files ≡ without_file (pub_path env (absolute p ps) label) m.pub_files)
  unfolding IsTame Keeps
  delete-create p ps hook callers touch rules m f c ready at_home h hs removal pub_removal =
      let (k, left, made, deleted) =
        delete-generate env.format env.enclave env.faults env.removal label callers touch rules
          m.stored f c ready removal in
      let (stored, files) =
        after_generate-IsTame (pub_path env (absolute p ps) label) env label hook touch k
          (λ pub_key. write_pub_key_file-IsTame env p ps label pub_key at_home h hs ready.allowed)
          (record m { stored = left }) in
      let created =
        cmd_create-stored hook callers touch rules m k left ready.allowed ready.parsed made in
      let ended =
        cmd_delete-end (absolute p ps)
          (after_generate env label touch hook k (record m { stored = left })).1 m.stored at_home
          pub_removal ready.allowed (rw stored deleted) in
      rw (created, ended) (refl, refl, files)
