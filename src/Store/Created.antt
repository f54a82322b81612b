-- ===== src/Store/Created.antt =====
-- `Generate` and `loadKeyfile` of keystore_fs.go, one behind the other.
use touchid_agent.Prelude.{
  ℕ, Bool, false, List, [], ◌∷◌, ◌++◌, Option, none, some, Result, ok, err, ◌≡◌, ◌⊎◌, refl, arith,
  Bool-cases, inl, inr, ◌⊎◌,
}
use touchid_agent.Text.{Text, equal_refl, is_empty}
use touchid_agent.Key.{
  Key, PublicKey, KeyError, Enclave, parse_ec_public_key, marshal_ec_public_key, generate_se_key,
  se_public_key_of,
}
use touchid_agent.Key.Point.{parse-marshal, parse-on_curve}
use touchid_agent.Policy.{CallerRule}
use touchid_agent.Policy.Parse.{rule_strings, parse_key_callers, reload_rules}
use touchid_agent.Policy.Parse.RoundTrip.{reload-parse_key_callers}
use touchid_agent.Store.{
  Format, IsFaithful, Entry, file, Keyfile, Faults, StoreError, generate, has_entry, load_keyfile,
  key_of_record, key_made, keyfile_of, store_key, stat_then, checked, written, write_keyfile,
  finish, discarded,
}
use touchid_agent.Store.Label.{LabelError, validate_label, file_name, key_path, label_of_path}

-- What the Secure Enclave promises: a key's blob is not empty, and gives the public key that was
-- handed out with it.
pub record IsConsistent (enclave : Enclave) : Type 0 where
  pub filled :
      (touch : Bool) (blob raw : List ℕ)
      → enclave.se_generate touch ≡ ok (blob, raw)
      → is_empty blob ≡ false
  pub agrees :
      (touch : Bool) (blob raw : List ℕ)
      → enclave.se_generate touch ≡ ok (blob, raw)
      → enclave.se_public_key blob ≡ ok raw

module _ (format : Format) (enclave : Enclave) (faithful : IsFaithful format) (faults : Faults)
    (label : Text) (touch : Bool) (rules : List CallerRule) (blob raw : List ℕ)
    (key : PublicKey) where
  record_loads :
      reload_rules (rule_strings rules) ≡ ok rules
      → parse_ec_public_key raw ≡ ok key
      → se_public_key_of enclave blob ≡ ok key
      → key_of_record format enclave label
          (keyfile_of format enclave faults label touch rules (blob, key))
        ≡ ok (key_made format enclave faults label touch rules (blob, key))
  unfolding key_of_record keyfile_of key_made
  record_loads hr hp hs = rw (
    equal_refl label,
    faithful.base64 blob,
    faithful.base64 (marshal_ec_public_key key),
    parse-marshal key (parse-on_curve raw key hp),
    hs,
    equal_refl (marshal_ec_public_key key),
    hr,
  )

  loads :
      (dir : Text)
      → validate_label label ≡ ok tt
      → reload_rules (rule_strings rules) ≡ ok rules
      → parse_ec_public_key raw ≡ ok key
      → se_public_key_of enclave blob ≡ ok key
      → load_keyfile format enclave
          (key_path dir label)
          (ok (faithful.encoding (keyfile_of format enclave faults label touch rules (blob, key))))
        ≡ ok (key_made format enclave faults label touch rules (blob, key))
  unfolding load_keyfile
  loads dir hl hr hp hs =
      rw
        (
          faithful.decodes (keyfile_of format enclave faults label touch rules (blob, key)),
          (label_of_path dir label hl).1,
        )
        (record_loads hr hp hs)

  generates :
      (es : List Entry)
      → validate_label label ≡ ok tt
      → has_entry (file_name label) es ≡ false
      → faults.stat_error ≡ none
      → faults.create_error ≡ none
      → faults.write_error ≡ none
      → generate_se_key enclave touch ≡ ok (blob, key)
      → generate format enclave faults label touch rules es ≡ (
        ok (key_made format enclave faults label touch rules (blob, key)),
        es
            ++ record {
              name = file_name label;
              node = file (
                  faithful.encoding
                    (keyfile_of format enclave faults label touch rules (blob, key)));
            }
              ∷ [],
      )
  unfolding generate store_key stat_then checked written write_keyfile finish
  generates es hl hn hs hc hw hg = rw (
    hl,
    hs,
    hn,
    hg,
    hc,
    hw,
    faithful.encodes (keyfile_of format enclave faults label touch rules (blob, key)),
  )

made_key :
    (enclave : Enclave) (touch : Bool) (blob raw : List ℕ) (key : PublicKey)
    → IsConsistent enclave
    → enclave.se_generate touch ≡ ok (blob, raw)
    → parse_ec_public_key raw ≡ ok key
    → (generate_se_key enclave touch ≡ ok (blob, key)) × (se_public_key_of enclave blob ≡ ok key)
unfolding generate_se_key se_public_key_of
made_key enclave touch blob raw key c h p =
    (rw (h, p), rw (c.filled touch blob raw h, c.agrees touch blob raw h, p))

-- What is known before `touchid-agent -create` where it succeeds: a label that is allowed and not
-- taken, rules that `-key-callers` parses, system calls that do not fail, and an answer of the Secure
-- Enclave with a point of the curve.
pub record IsReady (enclave : Enclave) (faults : Faults) (label spec : Text) (touch : Bool)
    (rules : List CallerRule) (es : List Entry) : Type 0 where
  pub allowed : validate_label label ≡ ok tt
  pub parsed : parse_key_callers spec ≡ ok rules
  pub free : has_entry (file_name label) es ≡ false
  pub stat : faults.stat_error ≡ none
  pub create : faults.create_error ≡ none
  pub write : faults.write_error ≡ none
  pub blob : List ℕ
  pub raw : List ℕ
  pub key : PublicKey
  pub generated : enclave.se_generate touch ≡ ok (blob, raw)
  pub on_curve : parse_ec_public_key raw ≡ ok key

-- Where the label is allowed and free, the rules come from `-key-callers`, no system call fails and the
-- Secure Enclave answers consistently, `Generate` succeeds and adds one file at the end of the store,
-- and loading that file from its path in any directory gives the very key that `Generate` returned.
pub generate-load_keyfile :
    (format : Format) (enclave : Enclave) (faults : Faults) (dir label spec : Text) (touch : Bool)
    (rules : List CallerRule) (es : List Entry)
    → IsFaithful format
    → IsConsistent enclave
    → IsReady enclave faults label spec touch rules es
    → (k : Key) × (bytes : List ℕ) × (generate format enclave faults label touch rules es
        ≡ (ok k, es ++ record { name = file_name label; node = file bytes } ∷ []))
      × (load_keyfile format enclave (key_path dir label) (ok bytes) ≡ ok k)
generate-load_keyfile format enclave faults dir label spec touch rules es f c r =
    let (made, shown) = made_key enclave touch r.blob r.raw r.key c r.generated r.on_curve in
    (
      key_made format enclave faults label touch rules (r.blob, r.key),
      f.encoding (keyfile_of format enclave faults label touch rules (r.blob, r.key)),
      generates format enclave f faults label touch rules r.blob r.raw r.key es r.allowed r.free
          r.stat r.create r.write made,
      loads format enclave f faults label touch rules r.blob r.raw r.key dir r.allowed
          (reload-parse_key_callers spec rules r.parsed) r.on_curve shown,
    )

module _ (format : Format) (enclave : Enclave) (faults : Faults) (label : Text)
    (es left : List Entry) (e : StoreError) where
  -- The files are as before, or the removal of what a failed write has left has failed too, and that is
  -- the one file more.
  abbrev pub IsLeft : Type 0
  IsLeft =
      (left ≡ es)
      ⊎ ((r : Text) × (part : List ℕ) × (faults.discard_error ≡ some r)
          × (left ≡ es ++ record { name = file_name label; node = file part } ∷ []))

  abbrev Kept : Result StoreError Key × List Entry → Type 0
  Kept made = made ≡ (err e, left) → IsLeft

  same_left :
      {x : Result StoreError Key} {ls : List Entry}
      → ◌≡◌ {A = Result StoreError Key × List Entry} (x, ls) (err e, left)
      → left ≡ ls
  same_left h = cc

  discarded-IsLeft :
      (failure : Option Text) (part : List ℕ)
      → faults.discard_error ≡ failure
      → left ≡ discarded format enclave faults failure (file_name label) part es
      → IsLeft
  unfolding discarded
  discarded-IsLeft none part same h = inl h
  discarded-IsLeft (some r) part same h = inr (r, part, same, h)

  written-Kept :
      (k : Key) (failure : Option (Text × List ℕ)) (bytes : Option (List ℕ))
      → Kept (
          finish format enclave faults k
            (written format enclave faults (file_name label) es failure bytes))
  unfolding written finish
  written-Kept k failure none h = discarded-IsLeft faults.discard_error [] refl (same_left h)
  written-Kept k (some (x, part)) (some b) h =
      discarded-IsLeft faults.discard_error part refl (same_left h)
  written-Kept k none (some b) h = absurd (ground arith)

  write_keyfile-Kept :
      (k : Key) (record_ : Keyfile) (failure : Option Text)
      → Kept (
          finish format enclave faults k
            (write_keyfile format enclave faults (file_name label) record_ es failure))
  unfolding write_keyfile
  write_keyfile-Kept k r (some x) h = inl (unfold finish in same_left h)
  write_keyfile-Kept k r none h = written-Kept k faults.write_error (format.encode r) h

  store_key-Kept :
      (touch : Bool) (rules : List CallerRule) (made : Result KeyError (List ℕ × PublicKey))
      → Kept (store_key format enclave faults label touch rules es made)
  unfolding store_key
  store_key-Kept touch rules (err x) h = inl (same_left h)
  store_key-Kept touch rules (ok m) h =
      write_keyfile-Kept (key_made format enclave faults label touch rules m)
        (keyfile_of format enclave faults label touch rules m) faults.create_error h

  stat_then-Kept :
      (failure : Option Text) (made : Result StoreError Key × List Entry)
      → Kept made
      → Kept (stat_then format enclave faults label es failure made)
  unfolding stat_then
  stat_then-Kept (some x) made m h = inl (same_left h)
  stat_then-Kept none made m h = elim (Bool-cases (has_entry (file_name label) es)) [
    | inl t ↦ inl (same_left (rw t at h))
    | inr f ↦ m (rw f at h)
  ]

  checked-Kept :
      (valid : Result LabelError (Unit {0})) (made : Result StoreError Key × List Entry)
      → Kept made
      → Kept (checked format enclave faults valid es made)
  unfolding checked
  checked-Kept (err x) made m h = inl (same_left h)
  checked-Kept (ok u) made m h = m h

-- A `Generate` that fails leaves the store's files as they were, whatever it is that failed, or, where the
-- removal of what a failed write has left fails too, one file more, that of its label.
pub generate-failed :
    (format : Format) (enclave : Enclave) (faults : Faults) (label : Text) (touch : Bool)
    (rules : List CallerRule) (es left : List Entry) (e : StoreError)
    → generate format enclave faults label touch rules es ≡ (err e, left)
    → IsLeft format enclave faults label es left e
unfolding generate
generate-failed format enclave faults label touch rules es left e h =
    checked-Kept format enclave faults label es left e (validate_label label)
      (stat_then format enclave faults label es faults.stat_error
        (store_key format enclave faults label touch rules es (generate_se_key enclave touch)))
      (stat_then-Kept format enclave faults label es left e faults.stat_error _ (
        store_key-Kept format enclave faults label es left e touch rules
          (generate_se_key enclave touch)))
      h
