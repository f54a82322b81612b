-- ===== src/Store/Mapping.antt =====
-- The key store of keystore_fs.go as a map from labels to keys: what the operations do to that map.
use touchid_agent.Prelude.{
  ℕ, Bool, false, List, [], ◌∷◌, ◌++◌, Option, none, some, Result, ok, err, ◌≡◌, refl, sym, ◌∙◌,
  arith, Bool-cases, inl, inr, if◌then◌else◌,
}
use touchid_agent.Text.{Text, equal, equal_iff}
use touchid_agent.Key.{Key, PublicKey, KeyError, Enclave, generate_se_key}
use touchid_agent.Key.Point.{generate_se_key-eq-ok}
use touchid_agent.Policy.{CallerRule}
use touchid_agent.Policy.Parse.{parse_key_callers}
use touchid_agent.Store.{
  Format, IsFaithful, Entry, Node, file, Faults, StoreError, LoadKeyError, generate, has_entry,
  without_entry, load_keyfile, content_of, Removal, delete, delete_checked, remove_entry, store_key,
  stat_then, checked, written, write_keyfile, finish, Keyfile,
}
use touchid_agent.Store.Label.{LabelError, validate_label, file_name, key_path, equal-file_name}
use touchid_agent.Store.Created.{IsConsistent, IsReady, generate-load_keyfile}

-- What a label stands for.
abbrev pub KeyMap : Type 0
KeyMap = Text → Option Key

abbrev pub put : Text → Key → KeyMap → KeyMap
put label k m l = if equal label l then some k else m l

abbrev pub erase : Text → KeyMap → KeyMap
erase label m l = if equal label l then none else m l

-- The first entry of a name: os.ReadFile of its path.
pub find_entry : Text → List Entry → Option Node
find_entry name [] = none
find_entry name (e ∷ es) =
    let later = find_entry name es in if equal e.name name then some e.node else later

find_entry-none :
    (name : Text) (es : List Entry) → has_entry name es ≡ false → find_entry name es ≡ none
unfolding has_entry find_entry
find_entry-none name [] h = refl
find_entry-none name (e ∷ es) h = ground (arith, find_entry-none name es)

find_entry-append :
    (name : Text) (es : List Entry) (e : Entry)
    → has_entry e.name es ≡ false
    → find_entry name (es ++ e ∷ [])
      ≡ (if equal e.name name then some e.node else find_entry name es)
unfolding has_entry find_entry
find_entry-append name [] e h = refl
find_entry-append name (x ∷ es) e h = ground (
  arith,
  find_entry-append name es e,
  equal_iff x.name name,
  equal_iff e.name name,
  equal_iff x.name e.name,
)

find_entry-without_entry :
    (name other : Text) (es : List Entry)
    → find_entry name (without_entry other es)
      ≡ (if equal other name then none else find_entry name es)
unfolding without_entry find_entry
find_entry-without_entry name other [] = ground arith
find_entry-without_entry name other (x ∷ es) = ground (
  arith,
  find_entry-without_entry name other es,
  equal_iff x.name name,
  equal_iff x.name other,
  equal_iff other name,
)

-- The key that a file gives.
abbrev loaded : Result LoadKeyError Key → Option Key
loaded (ok k) = some k
loaded (err e) = none

-- The map that a directory stands for: each label's key is what its file loads as.
module _ (format : Format) (enclave : Enclave) (dir : Text) where
  found_at : Text → Option Node → Option Key
  found_at label none = none
  found_at label (some n) =
      loaded (load_keyfile format enclave (key_path dir label) (content_of format enclave n))

  pub view : List Entry → KeyMap
  unfolding found_at
  view es label = found_at label (find_entry (file_name label) es)

-- What a successful `Generate` has found, in the order of its checks.
module _ (format : Format) (enclave : Enclave) (faults : Faults) (label : Text) (touch : Bool)
    (rules : List CallerRule) (es left : List Entry) (k : Key) where
  abbrev Ends : Result StoreError Key × List Entry → Type 0
  Ends made = made ≡ (ok k, left)

  checked-ok :
      (v : Result LabelError (Unit {0})) (made : Result StoreError Key × List Entry)
      → Ends (checked format enclave faults v es made)
      → (v ≡ ok tt) × Ends made
  unfolding checked
  checked-ok (err e) made h = absurd (ground arith)
  checked-ok (ok tt) made h = (refl, h)

  stat_then-ok :
      (failure : Option Text) (made : Result StoreError Key × List Entry)
      → Ends (stat_then format enclave faults label es failure made)
      → (failure ≡ none) × (has_entry (file_name label) es ≡ false) × Ends made
  unfolding stat_then
  stat_then-ok (some e) made h = absurd (ground arith)
  stat_then-ok none made h = elim (Bool-cases (has_entry (file_name label) es)) [
    | inl taken ↦ absurd (ground arith)
    | inr free ↦ (refl, free, rw free at h)
  ]

  written-ok :
      (made : Key) (failure : Option (Text × List ℕ)) (bytes : Option (List ℕ))
      → Ends (
          finish format enclave faults made
            (written format enclave faults (file_name label) es failure bytes))
      → failure ≡ none
  unfolding written finish
  written-ok made failure none h = absurd (ground arith)
  written-ok made (some (e, part)) (some bytes) h = absurd (ground arith)
  written-ok made none (some bytes) h = refl

  write_keyfile-ok :
      (made : Key) (rec : Keyfile) (failure : Option Text)
      → Ends (
          finish format enclave faults made
            (write_keyfile format enclave faults (file_name label) rec es failure))
      → (failure ≡ none) × (faults.write_error ≡ none)
  unfolding write_keyfile
  write_keyfile-ok made rec (some e) h = absurd (unfold finish in ground arith)
  write_keyfile-ok made rec none h =
      (refl, written-ok made faults.write_error (format.encode rec) h)

  store_key-ok :
      (made : Result KeyError (List ℕ × PublicKey))
      → Ends (store_key format enclave faults label touch rules es made)
      → (blob : List ℕ) × (key : PublicKey) × (made ≡ ok (blob, key))
        × (faults.create_error ≡ none)
        × (faults.write_error ≡ none)
  unfolding store_key
  store_key-ok (err e) h = absurd (ground arith)
  store_key-ok (ok (blob, key)) h =
      let (create, write) = write_keyfile-ok _ _ faults.create_error h in
      (blob, key, refl, create, write)

  -- A `Generate` that succeeds had what it needs.
  generate-IsReady :
      (spec : Text)
      → parse_key_callers spec ≡ ok rules
      → Ends (generate format enclave faults label touch rules es)
      → IsReady enclave faults label spec touch rules es
  unfolding generate
  generate-IsReady spec parsed h =
      let (allowed, h1) = checked-ok (validate_label label) _ h in
      let (stat, free, h2) = stat_then-ok faults.stat_error _ h1 in
      let (blob, key, made, create, write) = store_key-ok (generate_se_key enclave touch) h2 in
      let (raw, generated, on_curve) = generate_se_key-eq-ok enclave touch blob key made in
      record {
        allowed = allowed;
        parsed = parsed;
        free = free;
        stat = stat;
        create = create;
        write = write;
        blob = blob;
        raw = raw;
        key = key;
        generated = generated;
        on_curve = on_curve;
      }

same_end :
    {k k' : Key} {es es' : List Entry}
    → ◌≡◌ {A = Result StoreError Key × List Entry} (ok k, es) (ok k', es')
    → (k ≡ k') × (es ≡ es')
same_end e = (cc, cc)

module _ (format : Format) (enclave : Enclave) (dir : Text) where
  view-append :
      (label : Text) (bytes : List ℕ) (k : Key) (es : List Entry)
      → has_entry (file_name label) es ≡ false
      → load_keyfile format enclave (key_path dir label) (ok bytes) ≡ ok k
      → (l : Text)
      → view format enclave dir (es ++ record { name = file_name label; node = file bytes } ∷ []) l
        ≡ put label k (view format enclave dir es) l
  unfolding view
  view-append label bytes k es free back l =
      rw
        (
          find_entry-append (file_name l) es (record { name = file_name label; node = file bytes })
              free,
          equal-file_name label l,
        )
        (elim (Bool-cases (equal label l)) [
          | inl same ↦ rw (same, ← (equal_iff label l).0 same) (unfold content_of in rw back)
          | inr other ↦ rw other refl
        ])

  -- Where encodings are read back and the Secure Enclave answers consistently, a `Generate` that succeeds
  -- under the rules of `-key-callers` found no file of the label, puts its key under the label into the
  -- map, and changes the map nowhere else.
  pub generate_puts :
      (faults : Faults) (label spec : Text) (touch : Bool) (rules : List CallerRule)
      (es left : List Entry) (k : Key)
      → IsFaithful format
      → IsConsistent enclave
      → parse_key_callers spec ≡ ok rules
      → generate format enclave faults label touch rules es ≡ (ok k, left)
      → (find_entry (file_name label) es ≡ none)
        × ((l : Text) → view format enclave dir left l ≡ put label k (view format enclave dir es) l)
  unfolding view found_at
  generate_puts faults label spec touch rules es left k f c parsed h =
      let ready =
        generate-IsReady format enclave faults label touch rules es left k spec parsed h in
      let (k', bytes, made, back) =
        generate-load_keyfile format enclave faults dir label spec touch rules es f c ready in
      let (same, same') = same_end (sym made ∙ h) in
      (
        find_entry-none (file_name label) es ready.free,
        λ l. rw (← same, ← same') (view-append label bytes k' es ready.free back l),
      )

  remove_entry-view :
      (removal : Removal) (label : Text) (es : List Entry)
      → removal (file_name label) ≡ none
      → ((remove_entry removal (file_name label) es).0 ≡ ok tt)
        × ((l : Text)
            → view format enclave dir (remove_entry removal (file_name label) es).1 l
              ≡ erase label (view format enclave dir es) l)
  unfolding remove_entry view
  remove_entry-view removal label es h = elim (Bool-cases (has_entry (file_name label) es)) [
    | inl there ↦ (
      rw (there, h) refl,
      λ l.
          rw (there, h)
            (rw
              (find_entry-without_entry (file_name l) (file_name label) es, equal-file_name label l)
              (elim (Bool-cases (equal label l)) [
                | inl same ↦ rw same refl
                | inr other ↦ rw other refl
              ])),
    )
    | inr gone ↦ (
      rw gone refl,
      λ l. rw gone (elim (Bool-cases (equal label l)) [
        | inl same ↦
            rw same
              (rw (← (equal_iff label l).0 same, find_entry-none (file_name label) es gone) refl)
        | inr other ↦ rw other refl
      ]),
    )
  ]

  -- `Delete` of a label that is allowed takes it out of the map and leaves all else, whether or not it
  -- was there, where the removal of its file does not fail.
  pub delete_erases :
      (removal : Removal) (label : Text) (es : List Entry)
      → validate_label label ≡ ok tt
      → removal (file_name label) ≡ none
      → ((delete removal label es).0 ≡ ok tt)
        × ((l : Text)
            → view format enclave dir (delete removal label es).1 l
              ≡ erase label (view format enclave dir es) l)
  unfolding delete delete_checked
  delete_erases removal label es allowed h = rw allowed (remove_entry-view removal label es h)
