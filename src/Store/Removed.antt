-- ===== src/Store/Removed.antt =====
-- `Delete` of keystore_fs.go on a key that `Generate` has made.
use touchid_agent.Prelude.{
  Bool, true, false, List, [], ◌∷◌, ◌++◌, none, ok, ◌≡◌, refl, ap, arith, Bool-cases, inl, inr,
}
use touchid_agent.Text.{Text, equal, equal_refl}
use touchid_agent.Key.{Key, Enclave}
use touchid_agent.Policy.{CallerRule}
use touchid_agent.Store.{
  Format, IsFaithful, Entry, Node, file, Faults, generate, has_entry, without_entry, Removal,
  delete, delete_checked, remove_entry,
}
use touchid_agent.Store.Label.{file_name}
use touchid_agent.Store.Created.{IsConsistent, IsReady, generate-load_keyfile}

module _ (name : Text) (node : Node) where
  abbrev own : Entry
  own = record { name = name; node = node }

  has_entry-append : (es : List Entry) → has_entry name (es ++ own ∷ []) ≡ true
  unfolding has_entry
  has_entry-append [] = rw (equal_refl name) refl
  has_entry-append (e ∷ es) = ground (arith, has_entry-append es)

  without_entry-append :
      (es : List Entry) → has_entry name es ≡ false → without_entry name (es ++ own ∷ []) ≡ es
  unfolding has_entry without_entry
  without_entry-append [] h = rw (equal_refl name) refl
  without_entry-append (e ∷ es) h = elim (Bool-cases (equal e.name name)) [
    | inl same ↦ absurd (ground arith)
    | inr differs ↦ rw differs (ap (λ r. e ∷ r) (without_entry-append es (rw differs at h)))
  ]

  remove_entry-append :
      (removal : Removal) (es : List Entry)
      → removal name ≡ none
      → has_entry name es ≡ false
      → remove_entry removal name (es ++ own ∷ []) ≡ (ok tt, es)
  unfolding remove_entry
  remove_entry-append removal es h f = rw (has_entry-append es, h, without_entry-append es f) refl

-- Where `Generate` has what it needs, a `Delete` of the label that does not fail takes away just the
-- file that `Generate` added: the store is as it was before the two.
pub delete-generate :
    (format : Format) (enclave : Enclave) (faults : Faults) (removal : Removal) (label spec : Text)
    (touch : Bool) (rules : List CallerRule) (es : List Entry)
    → IsFaithful format
    → IsConsistent enclave
    → IsReady enclave faults label spec touch rules es
    → removal (file_name label) ≡ none
    → (k : Key) × (left : List Entry) × (generate format enclave faults label touch rules es
        ≡ (ok k, left))
      × (delete removal label left ≡ (ok tt, es))
delete-generate format enclave faults removal label spec touch rules es f c r h =
    let (k, bytes, made, loaded) =
      generate-load_keyfile format enclave faults [] label spec touch rules es f c r in
    (
      k,
      es ++ record { name = file_name label; node = file bytes } ∷ [],
      made,
      unfold delete delete_checked in
          rw r.allowed (remove_entry-append (file_name label) (file bytes) removal es h r.free),
    )
