-- ===== src/Store/Listed.antt =====
-- `List` of keystore_fs.go: the order of its keys.
use mathlib.Core.Path.{subst}
use touchid_agent.Prelude.{
  ℕ, ◌+◌, ◌∙◌, ◌||◌, if◌then◌else◌, count, Bool, true, false, List, [], ◌∷◌, Result, ok, ◌≡◌, refl,
  arith, Bool-cases, inl, inr, ℕ, Option, some, none, err, not, ap,
}
use touchid_agent.Text.{Text}
use touchid_agent.Key.{Key, Enclave}
use touchid_agent.Store.{
  Format, StoreError, directory, text_lt, insert_key, sort_keys, load_all, Entry, entries, list,
  LoadKeyError, is_directory, onto_loaded, Node, file, content_of, has_suffix, json_suffix,
  load_keyfile, join, unreadable,
}

-- No key's label comes before that of the key ahead of it.
abbrev pub IsSorted : List Key → Type 0
IsSorted [] = Unit
IsSorted (k ∷ []) = Unit
IsSorted (k ∷ l ∷ ls) = (text_lt l.label k.label ≡ false) × IsSorted (l ∷ ls)

text_lt_asym : (s t : Text) → text_lt s t ≡ true → text_lt t s ≡ false
unfolding text_lt
text_lt_asym [] [] h = cc
text_lt_asym [] (d ∷ t) h = refl
text_lt_asym (c ∷ s) [] h = cc
text_lt_asym (c ∷ s) (d ∷ t) h = ground (arith, text_lt_asym s t)

insert_key-behind :
    (k l : Key) (ls : List Key)
    → text_lt k.label l.label ≡ false
    → IsSorted (l ∷ ls)
    → IsSorted (l ∷ insert_key k ls)
unfolding insert_key
insert_key-behind k l [] h s = (h, tt)
insert_key-behind k l (n ∷ ls) h (step, s) = elim (Bool-cases (text_lt k.label n.label)) [
  | inl first ↦ rw first (h, (text_lt_asym k.label n.label first, s))
  | inr later ↦ rw later (step, insert_key-behind k n ls later s)
]

insert_key-IsSorted : (k : Key) (ls : List Key) → IsSorted ls → IsSorted (insert_key k ls)
insert_key-IsSorted k [] s = unfold insert_key in tt
insert_key-IsSorted k (l ∷ ls) s = elim (Bool-cases (text_lt k.label l.label)) [
  | inl first ↦ unfold insert_key in rw first (text_lt_asym k.label l.label first, s)
  | inr later ↦ unfold insert_key in rw later (insert_key-behind k l ls later s)
]

sort_keys-IsSorted : (ks : List Key) → IsSorted (sort_keys ks)
unfolding sort_keys
sort_keys-IsSorted [] = tt
sort_keys-IsSorted (k ∷ ks) = insert_key-IsSorted k (sort_keys ks) (sort_keys-IsSorted ks)

module _ (p : Key → Bool) where
  count-insert_key : (k : Key) (ls : List Key) → count p (insert_key k ls) ≡ count p (k ∷ ls)
  unfolding insert_key
  count-insert_key k [] = refl
  count-insert_key k (l ∷ ls) = elim (Bool-cases (text_lt k.label l.label)) [
    | inl first ↦ rw first refl
    | inr later ↦ rw later (ground (arith, count-insert_key k ls))
  ]

  count-sort_keys : (ks : List Key) → count p (sort_keys ks) ≡ count p ks
  unfolding sort_keys
  count-sort_keys [] = refl
  count-sort_keys (k ∷ ks) = ground (arith, count-insert_key k (sort_keys ks), count-sort_keys ks)

-- The key that an entry of the directory shows: a file whose name ends in ".json" and that loads.
abbrev pub key_if : Bool → Result LoadKeyError Key → Option Key
key_if true (ok k) = some k
key_if _ _ = none

abbrev pub shown_by : Format → Enclave → Text → Text → Node → Option Key
shown_by format enclave dir name (file b) =
    key_if (has_suffix name json_suffix) (load_keyfile format enclave (join dir name) (ok b))
shown_by format enclave dir name _ = none

abbrev pub hits : (Key → Bool) → Option Key → ℕ
hits p none = 0
hits p (some k) = if p k then 1 else 0

-- How many entries show a key that `p` holds of.
abbrev pub occurrences : Format → Enclave → Text → (Key → Bool) → List Entry → ℕ
occurrences format enclave dir p [] = 0
occurrences format enclave dir p (e ∷ es) =
    hits p (shown_by format enclave dir e.name e.node) + occurrences format enclave dir p es

module _ (format : Format) (enclave : Enclave) (dir : Text) (p : Key → Bool) where
  count-onto_loaded :
      (r : Result LoadKeyError Key) (ks : List Key)
      → count p (onto_loaded format enclave r ks) ≡ hits p (key_if true r) + count p ks
  unfolding onto_loaded
  count-onto_loaded (ok k) ks = ground arith
  count-onto_loaded (err e) ks = omega arith

  -- What one entry adds, to the keys of those behind it.
  with_entry : Text → Node → List Key → List Key
  with_entry name node rest =
      if is_directory format enclave node || not (has_suffix name json_suffix)
      then rest
      else onto_loaded format enclave
          (load_keyfile format enclave (join dir name) (content_of format enclave node)) rest

  count-with_entry :
      (name : Text) (node : Node) (rest : List Key)
      → count p (with_entry name node rest)
        ≡ hits p (shown_by format enclave dir name node) + count p rest
  unfolding with_entry is_directory content_of
  count-with_entry name directory rest = omega arith
  count-with_entry name (file b) rest = elim (Bool-cases (has_suffix name json_suffix)) [
    | inl key ↦ rw key (count-onto_loaded _ rest)
    | inr other ↦ rw other (omega arith)
  ]
  count-with_entry name (unreadable e) rest = elim (Bool-cases (has_suffix name json_suffix)) [
    | inl key ↦ rw key (unfold load_keyfile onto_loaded in omega arith)
    | inr other ↦ rw other (omega arith)
  ]

  count-load_all :
      (es : List Entry)
      → count p (load_all format enclave dir es) ≡ occurrences format enclave dir p es
  unfolding load_all with_entry
  count-load_all [] = refl
  count-load_all (e ∷ es) =
      count-with_entry e.name e.node (load_all format enclave dir es)
      ∙ ap (λ n. hits p (shown_by format enclave dir e.name e.node) + n) (count-load_all es)

same_keys : {a b : List Key} → ◌≡◌ {A = Result StoreError (List Key)} (ok a) (ok b) → a ≡ b
same_keys e = cc

-- What `List` gives for a directory is in the order of the labels, and holds of each kind of key as many
-- as the directory has files whose names end in ".json" and that load as such a key: no entry hides
-- another.
pub list-IsSorted :
    (format : Format) (enclave : Enclave) (dir : Text) (es : List Entry) (keys : List Key)
    → list format enclave dir (entries es) ≡ ok keys
    → IsSorted keys × ((p : Key → Bool) → count p keys ≡ occurrences format enclave dir p es)
unfolding list
list-IsSorted format enclave dir es keys h =
    let loaded = load_all format enclave dir es in
    (
      subst (λ ks. IsSorted ks) (same_keys h) (sort_keys-IsSorted loaded),
      λ p. rw (← same_keys h) (count-sort_keys p loaded ∙ count-load_all format enclave dir p es),
    )
