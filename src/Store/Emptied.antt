-- ===== src/Store/Emptied.antt =====
-- `DeleteAll` of keystore_fs.go where no removal fails, and `List` behind it.
use touchid_agent.Prelude.{
  Bool, not, List, [], ◌∷◌, none, ok, ◌≡◌, refl, ap, arith, keep, Bool-cases, inl, inr,
}
use touchid_agent.Text.{Text}
use touchid_agent.Key.{Enclave}
use touchid_agent.Store.{
  Format, Entry, Removal, entries, delete_all, remove_all, first_error, list, load_all,
}
use touchid_agent.Store.Label.{has_suffix, json_suffix}

-- Not the name of a key file
abbrev pub is_other : Entry → Bool
is_other e = not (has_suffix e.name json_suffix)

remove_all-keep :
    (removal : Removal) (es : List Entry)
    → ((name : Text) → removal name ≡ none)
    → remove_all removal es ≡ (ok tt, keep is_other es)
unfolding remove_all first_error
remove_all-keep removal [] h = refl
remove_all-keep removal (e ∷ es) h = elim (Bool-cases (has_suffix e.name json_suffix)) [
  | inl key ↦
      rw (key, h e.name) (ap (λ x. (first_error none x.0, x.1)) (remove_all-keep removal es h))
  | inr other ↦ rw other (ap (λ x. (x.0, e ∷ x.1)) (remove_all-keep removal es h))
]

pub delete_all-keep :
    (removal : Removal) (es : List Entry)
    → ((name : Text) → removal name ≡ none)
    → delete_all removal (entries es) ≡ (ok tt, entries (keep is_other es))
unfolding delete_all
delete_all-keep removal es h = rw (remove_all-keep removal es h) refl

load_all-keep :
    (format : Format) (enclave : Enclave) (dir : Text) (es : List Entry)
    → load_all format enclave dir (keep is_other es) ≡ []
unfolding load_all
load_all-keep format enclave dir [] = refl
load_all-keep format enclave dir (e ∷ es) = elim (Bool-cases (has_suffix e.name json_suffix)) [
  | inl key ↦ rw key (load_all-keep format enclave dir es)
  | inr other ↦ rw (other, other) (ground (arith, load_all-keep format enclave dir es))
]

pub list-keep :
    (format : Format) (enclave : Enclave) (dir : Text) (es : List Entry)
    → list format enclave dir (entries (keep is_other es)) ≡ ok []
unfolding list
list-keep format enclave dir es = rw (load_all-keep format enclave dir es) refl

pub keep_twice {ℓ} : {A : Type ℓ} (p : A → Bool) (xs : List A) → keep p (keep p xs) ≡ keep p xs
keep_twice p [] = refl
keep_twice p (x ∷ xs) = elim (Bool-cases (p x)) [
  | inl b ↦ rw (b, b) (ap (λ r. x ∷ r) (keep_twice p xs))
  | inr b ↦ rw b (keep_twice p xs)
]
