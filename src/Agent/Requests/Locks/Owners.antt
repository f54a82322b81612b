-- ===== src/Agent/Requests/Locks/Owners.antt =====
-- Who owns which lock while requests are served at once: kept by every step.
use touchid_agent.Prelude.{
  ℕ, ◌<◌, ◌≤◌, Bool, true, false, List, ◌∷◌, Option, none, some, ◌≡◌, refl, arith, ◌==◌, Bool-cases,
  inl, inr,
}
use touchid_agent.Text.{Text, equal_iff}
use touchid_agent.Agent.Requests.{
  Effect, lock_key, unlock_key, lock_biometric, unlock_biometric, use_key, audited, notify_waiting,
  notify_signed, notify_stall,
}
use touchid_agent.Agent.Requests.Locks.{Held, free, key_held, prompt_held, step, run}
use touchid_agent.Agent.Requests.Locks.Threads.{
  System, at_key, at_thread, is_quiet, Step, take_key, give_key, take_prompt, give_prompt, proceed,
  Reach, begin, advance,
}

abbrev pub label_of : Held → Option Text
label_of free = none
label_of (key_held l) = some l
label_of (prompt_held l) = some l

abbrev pub in_prompt : Held → Bool
in_prompt (prompt_held l) = true
in_prompt _ = false

-- What each request holds agrees with the locks' owners, and with what it has yet to do.
pub record Inv (n : ℕ) (touch : ℕ → Bool) (s : System) : Type 0 where
  pub held : ℕ → Held
  pub runs : (i : ℕ) → run (touch i) (some (held i)) (s.rest i) ≡ some free
  pub owns_key : (i : ℕ) (l : Text) → label_of (held i) ≡ some l → s.key_owner l ≡ some i
  pub key_owned : (i : ℕ) (l : Text) → s.key_owner l ≡ some i → label_of (held i) ≡ some l
  pub owns_prompt : (i : ℕ) → in_prompt (held i) ≡ true → s.prompt_owner ≡ some i
  pub within : (i : ℕ) → n ≤ i → held i ≡ free
  pub prompt_owned : (i : ℕ) → s.prompt_owner ≡ some i → in_prompt (held i) ≡ true

-- The first effect of what is left is one that the discipline lets through.
pub run-cons :
    (touch : Bool) (h : Held) (e : Effect) (t : List Effect)
    → run touch (some h) (e ∷ t) ≡ some free
    → (h' : Held) × (step e h touch ≡ some h') × (run touch (some h') t ≡ some free)
run-cons touch h e t r = go (step e h touch) refl r
  where
    go :
        (o : Option Held)
        → step e h touch ≡ o
        → run touch o t ≡ some free
        → (h' : Held) × (step e h touch ≡ some h') × (run touch (some h') t ≡ some free)
    go none same later = absurd (cc)
    go (some h') same later = (h', same, later)

pub step-lock_key :
    (l : Text) (h h' : Held) (touch : Bool)
    → step (lock_key l) h touch ≡ some h'
    → (h ≡ free) × (h' ≡ key_held l)
unfolding step
step-lock_key l free h' touch e = (refl, cc)
step-lock_key l (key_held k) h' touch e = absurd (cc)
step-lock_key l (prompt_held k) h' touch e = absurd (cc)

pub step-unlock_key :
    (l : Text) (h h' : Held) (touch : Bool)
    → step (unlock_key l) h touch ≡ some h'
    → (h ≡ key_held l) × (h' ≡ free)
unfolding step
step-unlock_key l free h' touch e = absurd (cc)
step-unlock_key l (key_held k) h' touch e = ground (arith, equal_iff k l)
step-unlock_key l (prompt_held k) h' touch e = absurd (cc)

pub step-lock_biometric :
    (h h' : Held) (touch : Bool)
    → step lock_biometric h touch ≡ some h'
    → (k : Text) × (h ≡ key_held k) × (h' ≡ prompt_held k)
unfolding step
step-lock_biometric free h' touch e = absurd (cc)
step-lock_biometric (key_held k) h' true e = (k, refl, cc)
step-lock_biometric (key_held k) h' false e = absurd (cc)
step-lock_biometric (prompt_held k) h' touch e = absurd (cc)

pub step-unlock_biometric :
    (h h' : Held) (touch : Bool)
    → step unlock_biometric h touch ≡ some h'
    → (k : Text) × (h ≡ prompt_held k) × (h' ≡ key_held k)
unfolding step
step-unlock_biometric free h' touch e = absurd (cc)
step-unlock_biometric (key_held k) h' touch e = absurd (cc)
step-unlock_biometric (prompt_held k) h' touch e = (k, refl, cc)

step-quiet :
    (x : Effect) (h h' : Held) (touch : Bool)
    → is_quiet x ≡ true
    → step x h touch ≡ some h'
    → h' ≡ h
unfolding step
step-quiet (lock_key l) h h' touch q e = absurd (cc)
step-quiet (unlock_key l) h h' touch q e = absurd (cc)
step-quiet lock_biometric h h' touch q e = absurd (cc)
step-quiet unlock_biometric h h' touch q e = absurd (cc)
step-quiet (use_key l) free h' touch q e = absurd (cc)
step-quiet (use_key l) (key_held k) h' true q e = absurd (cc)
step-quiet (use_key l) (key_held k) h' false q e = ground arith
step-quiet (use_key l) (prompt_held k) h' true q e = ground arith
step-quiet (use_key l) (prompt_held k) h' false q e = absurd (cc)
step-quiet (audited l b) free h' touch q e = absurd (cc)
step-quiet (audited l b) (key_held k) h' touch q e = ground arith
step-quiet (audited l b) (prompt_held k) h' touch q e = ground arith
step-quiet (notify_waiting l) h h' touch q e = cc
step-quiet (notify_signed l n) h h' touch q e = cc
step-quiet notify_stall h h' touch q e = cc

module _ (n : ℕ) (touch : ℕ → Bool) (s : System) (inv : Inv n touch s) (i : ℕ) (lt : i < n) where
  open inv use {held, within, runs, owns_key, key_owned, owns_prompt, prompt_owned}

  -- Request `i` holds `h'` and has `t` left.
  runs-at_thread :
      (h' : Held) (t : List Effect)
      → run (touch i) (some h') t ≡ some free
      → (j : ℕ) → run (touch j) (some (at_thread i h' held j)) (at_thread i t s.rest j) ≡ some free
  runs-at_thread h' t r j = elim (Bool-cases (i == j)) [
    | inl e ↦ let same : i ≡ j = ground arith in rw e (rw (← same) r)
    | inr e ↦ rw e (runs j)
  ]

  -- The first effect of request `i` and what it comes to hold.
  first :
      (e : Effect) (t : List Effect)
      → s.rest i ≡ e ∷ t
      → (h' : Held) × (step e (held i) (touch i) ≡ some h')
        × (run (touch i) (some h') t ≡ some free)
  first e t here = run-cons (touch i) (held i) e t (rw here at (runs i))

  take_key-Inv :
      (l : Text) (t : List Effect)
      → s.rest i ≡ lock_key l ∷ t
      → s.key_owner l ≡ none
      → Inv n touch
          (record s { key_owner = at_key l (some i) s.key_owner; rest = at_thread i t s.rest })
  take_key-Inv l t here none_owns =
      let (h', steps, later) = first (lock_key l) t here in
      let (was, now) = step-lock_key l (held i) h' (touch i) steps in
      record {
        held = at_thread i h' held;
        runs = runs-at_thread h' t later;
        within = λ j le. ground (arith, within j);
        owns_key = λ j m e. ground (arith, equal_iff l m, owns_key j m);
        key_owned = λ j m e. ground (arith, equal_iff l m, key_owned j m);
        owns_prompt = λ j e. ground (arith, owns_prompt j);
        prompt_owned = λ j e. ground (arith, prompt_owned j);
      }

  give_key-Inv :
      (l : Text) (t : List Effect)
      → s.rest i ≡ unlock_key l ∷ t
      → Inv n touch
          (record s { key_owner = at_key l none s.key_owner; rest = at_thread i t s.rest })
  give_key-Inv l t here =
      let (h', steps, later) = first (unlock_key l) t here in
      let (was, now) = step-unlock_key l (held i) h' (touch i) steps in
      record {
        held = at_thread i h' held;
        runs = runs-at_thread h' t later;
        within = λ j le. ground (arith, within j);
        owns_key = λ j m e. ground (arith, equal_iff l m, owns_key j m, owns_key i l);
        key_owned = λ j m e. ground (arith, equal_iff l m, key_owned j m, key_owned i m);
        owns_prompt = λ j e. ground (arith, owns_prompt j);
        prompt_owned = λ j e. ground (arith, prompt_owned j);
      }

  take_prompt-Inv :
      (t : List Effect)
      → s.rest i ≡ lock_biometric ∷ t
      → s.prompt_owner ≡ none
      → Inv n touch (record s { prompt_owner = some i; rest = at_thread i t s.rest })
  take_prompt-Inv t here none_owns =
      let (h', steps, later) = first lock_biometric t here in
      let (k, was, now) = step-lock_biometric (held i) h' (touch i) steps in
      record {
        held = at_thread i h' held;
        runs = runs-at_thread h' t later;
        within = λ j le. ground (arith, within j);
        owns_key = λ j m e. ground (arith, owns_key j m);
        key_owned = λ j m e. ground (arith, key_owned j m);
        owns_prompt = λ j e. ground (arith, owns_prompt j);
        prompt_owned = λ j e. ground (arith, prompt_owned j);
      }

  give_prompt-Inv :
      (t : List Effect)
      → s.rest i ≡ unlock_biometric ∷ t
      → Inv n touch (record s { prompt_owner = none; rest = at_thread i t s.rest })
  give_prompt-Inv t here =
      let (h', steps, later) = first unlock_biometric t here in
      let (k, was, now) = step-unlock_biometric (held i) h' (touch i) steps in
      record {
        held = at_thread i h' held;
        runs = runs-at_thread h' t later;
        within = λ j le. ground (arith, within j);
        owns_key = λ j m e. ground (arith, owns_key j m);
        key_owned = λ j m e. ground (arith, key_owned j m);
        owns_prompt = λ j e. ground (arith, owns_prompt j, owns_prompt i);
        prompt_owned = λ j e. cc;
      }

  proceed-Inv :
      (x : Effect) (t : List Effect)
      → s.rest i ≡ x ∷ t
      → is_quiet x ≡ true
      → Inv n touch (record s { rest = at_thread i t s.rest })
  proceed-Inv x t here q =
      let (h', steps, later) = first x t here in
      let same : h' ≡ held i = step-quiet x (held i) h' (touch i) q steps in
      record {
        held = at_thread i h' held;
        runs = runs-at_thread h' t later;
        within = λ j le. ground (arith, within j);
        owns_key = λ j m e. ground (arith, owns_key j m);
        key_owned = λ j m e. ground (arith, key_owned j m);
        owns_prompt = λ j e. ground (arith, owns_prompt j);
        prompt_owned = λ j e. ground (arith, prompt_owned j);
      }

pub Step-Inv :
    {n : ℕ} {touch : ℕ → Bool} {s t : System} → Step n s t → Inv n touch s → Inv n touch t
Step-Inv {n} {touch} {s} (take_key i l t lt here free_key) inv =
    take_key-Inv n touch s inv i lt l t here free_key
Step-Inv {n} {touch} {s} (give_key i l t lt here) inv = give_key-Inv n touch s inv i lt l t here
Step-Inv {n} {touch} {s} (take_prompt i t lt here free_prompt) inv =
    take_prompt-Inv n touch s inv i lt t here free_prompt
Step-Inv {n} {touch} {s} (give_prompt i t lt here) inv = give_prompt-Inv n touch s inv i lt t here
Step-Inv {n} {touch} {s} (proceed i e t lt here q) inv = proceed-Inv n touch s inv i lt e t here q

pub Reach-Inv :
    {n : ℕ} {touch : ℕ → Bool} {s t : System} → Reach n s t → Inv n touch s → Inv n touch t
Reach-Inv begin inv = inv
Reach-Inv (advance r st) inv = Step-Inv st (Reach-Inv r inv)
