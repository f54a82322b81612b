-- ===== src/Text/Search.antt =====
-- `strings.Contains` and `strings.HasPrefix` on a word and its beginning.
use touchid_agent.Prelude.{true, [], ◌∷◌, ◌++◌, ◌≡◌, refl, arith}
use touchid_agent.Text.{Text, has_prefix, contains}

has_prefix-append : (s p q : Text) → has_prefix s (p ++ q) ≡ true → has_prefix s p ≡ true
unfolding has_prefix
has_prefix-append s [] q h = refl
has_prefix-append [] (c ∷ p) q h = h
has_prefix-append (d ∷ s) (c ∷ p) q h = ground (arith, has_prefix-append s p q)

pub contains-append : (s p q : Text) → contains s (p ++ q) ≡ true → contains s p ≡ true
unfolding contains
contains-append [] p q h = has_prefix-append [] p q h
contains-append (c ∷ s) p q h = ground (arith, has_prefix-append (c ∷ s) p q, contains-append s p q)
