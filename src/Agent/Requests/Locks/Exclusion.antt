-- ===== src/Agent/Requests/Locks/Exclusion.antt =====
-- Requests served at once: who may use a key or raise a prompt, and that some request can go on.
use touchid_agent.Prelude.{
  ℕ, ◌<◌, Bool, true, false, List, [], ◌∷◌, none, some, ◌≡◌, ◌⊎◌, refl, ◌∙◌, arith, Option-cases,
  inl, inr,
}
use touchid_agent.Text.{Text, equal_iff}
use touchid_agent.Audit.Encoding.{Codec}
use touchid_agent.Agent.Requests.{
  Agent, World, Request, matched, Effect, lock_key, unlock_key, lock_biometric, unlock_biometric,
  use_key, audited, notify_waiting, notify_signed, notify_stall,
}
use touchid_agent.Agent.Requests.Locks.{
  Held, free, key_held, prompt_held, step, touch_of, sign_for-disciplined,
}
use touchid_agent.Agent.Requests.Locks.Threads.{
  System, Step, take_key, give_key, take_prompt, give_prompt, proceed, begun, Reach,
}
use touchid_agent.Agent.Requests.Locks.Owners.{
  Inv, label_of, in_prompt, run-cons, step-lock_key, step-lock_biometric, Reach-Inv,
}

step-use_key :
    (l : Text) (h h' : Held) (touch : Bool)
    → step (use_key l) h touch ≡ some h'
    → (label_of h ≡ some l) × (in_prompt h ≡ touch)
unfolding step
step-use_key l free h' touch e = absurd (cc)
step-use_key l (key_held k) h' true e = absurd (cc)
step-use_key l (key_held k) h' false e = ground (arith, equal_iff k l)
step-use_key l (prompt_held k) h' true e = ground (arith, equal_iff k l)
step-use_key l (prompt_held k) h' false e = absurd (cc)

module _ (codec : Codec) (w : ℕ → World) (q : ℕ → Request) (a : ℕ → Agent) where
  -- Whether the key that a request asks for requires touch.
  abbrev pub touches : ℕ → Bool
  touches i = touch_of codec (w i) (q i) (matched (w i) (q i))

  begun-Inv : (n : ℕ) → Inv n touches (begun codec w q a)
  begun-Inv n = record {
    within = λ i le. refl;
    held = λ i. free;
    runs = λ i. sign_for-disciplined codec (w i) (q i) (a i);
    owns_key = λ i l e. absurd (cc);
    key_owned = λ i l e. absurd (cc);
    owns_prompt = λ i e. absurd (cc);
    prompt_owned = λ i e. absurd (cc);
  }

  module _ (n : ℕ) (s : System) (reached : Reach n (begun codec w q a) s) where
    inv : Inv n touches s
    inv = Reach-Inv reached (begun-Inv n)

    using :
        (i : ℕ) (l : Text) (t : List Effect)
        → s.rest i ≡ use_key l ∷ t
        → (s.key_owner l ≡ some i) × (touches i ≡ true → s.prompt_owner ≡ some i)
    using i l t e =
        let (h', steps, later) =
          run-cons (touches i) (inv.held i) (use_key l) t (rw e at (inv.runs i)) in
        let (label, prompted) = step-use_key l (inv.held i) h' (touches i) steps in
        (inv.owns_key i l label, λ on. inv.owns_prompt i (prompted ∙ on))

    -- Whatever the order of steps: of two requests that are about to use a key, both cannot use the same
    -- one, nor can the keys of both require touch. So no two prompts are up at once.
    pub uses_exclude :
        (i j : ℕ) (l m : Text) (t u : List Effect)
        → s.rest i ≡ use_key l ∷ t
        → s.rest j ≡ use_key m ∷ u
        → (l ≡ m) ⊎ ((touches i ≡ true) × (touches j ≡ true))
        → i ≡ j
    uses_exclude i j l m t u e f (inl same) = ground (arith, (using i l t e).0, (using j m u f).0)
    uses_exclude i j l m t u e f (inr (on, on')) =
        ground (arith, (using i l t e).1 on, (using j m u f).1 on')

    -- What has to be so for a request with this effect next to go on.
    abbrev Open : Effect → Type 0
    Open (lock_key l) = s.key_owner l ≡ none
    Open lock_biometric = s.prompt_owner ≡ none
    Open _ = Unit

    abbrev Goes : Type 0
    Goes = (u : System) × Step n s u

    goes : (i : ℕ) (x : Effect) (t : List Effect) → i < n → s.rest i ≡ x ∷ t → Open x → Goes
    goes i (lock_key l) t lt here o = (_, take_key i l t lt here o)
    goes i (unlock_key l) t lt here o = (_, give_key i l t lt here)
    goes i lock_biometric t lt here o = (_, take_prompt i t lt here o)
    goes i unlock_biometric t lt here o = (_, give_prompt i t lt here)
    goes i (use_key l) t lt here o = (_, proceed i (use_key l) t lt here refl)
    goes i (audited l b) t lt here o = (_, proceed i (audited l b) t lt here refl)
    goes i (notify_waiting l) t lt here o = (_, proceed i (notify_waiting l) t lt here refl)
    goes i (notify_signed l p) t lt here o = (_, proceed i (notify_signed l p) t lt here refl)
    goes i notify_stall t lt here o = (_, proceed i notify_stall t lt here refl)

    -- A request that holds a lock waits for no key, and for the prompt only if it does not hold that.
    Open-holder :
        (x : Effect) (h h' : Held) (touch : Bool) (l : Text)
        → label_of h ≡ some l
        → (in_prompt h ≡ true) ⊎ (s.prompt_owner ≡ none)
        → step x h touch ≡ some h'
        → Open x
    Open-holder (lock_key m) h h' touch l e w' st =
        absurd (ground (arith, step-lock_key m h h' touch st))
    Open-holder lock_biometric h h' touch l e (inr none_owns) st = none_owns
    Open-holder lock_biometric h h' touch l e (inl prompted) st =
        let (k, was, now) = step-lock_biometric h h' touch st in absurd (ground arith)
    Open-holder (unlock_key m) h h' touch l e w' st = tt
    Open-holder unlock_biometric h h' touch l e w' st = tt
    Open-holder (use_key m) h h' touch l e w' st = tt
    Open-holder (audited m b) h h' touch l e w' st = tt
    Open-holder (notify_waiting m) h h' touch l e w' st = tt
    Open-holder (notify_signed m p) h h' touch l e w' st = tt
    Open-holder notify_stall h h' touch l e w' st = tt

    holder_goes :
        (j : ℕ) (l : Text)
        → label_of (inv.held j) ≡ some l
        → (in_prompt (inv.held j) ≡ true) ⊎ (s.prompt_owner ≡ none)
        → (left : List Effect) → s.rest j ≡ left
        → Goes
    holder_goes j l e w' [] here =
        let done : some (inv.held j) ≡ some free = rw here at (inv.runs j) in absurd (ground arith)
    holder_goes j l e w' (x ∷ t) here =
        let (h', steps, later) = run-cons (touches j) (inv.held j) x t (rw here at (inv.runs j)) in
        goes j x t (ground (arith, inv.within j)) here
          (Open-holder x (inv.held j) h' (touches j) l e w' steps)

    prompt_holder_goes : (j : ℕ) → s.prompt_owner ≡ some j → Goes
    prompt_holder_goes j e = go (inv.held j) refl
      where
        go : (h : Held) → inv.held j ≡ h → Goes
        go free same = absurd (ground (arith, inv.prompt_owned j))
        go (key_held k) same = absurd (ground (arith, inv.prompt_owned j))
        go (prompt_held k) same =
            holder_goes j k (rw same) (inl (inv.prompt_owned j e)) (s.rest j) refl

    goes_without_prompt :
        (i : ℕ) (x : Effect) (t : List Effect)
        → i < n
        → s.rest i ≡ x ∷ t
        → s.prompt_owner ≡ none
        → Goes
    goes_without_prompt i (lock_key l) t lt here o = elim (Option-cases (s.key_owner l)) [
      | inl none_owns ↦ goes i (lock_key l) t lt here none_owns
      | inr (j, owned) ↦ holder_goes j l (inv.key_owned j l owned) (inr o) (s.rest j) refl
    ]
    goes_without_prompt i lock_biometric t lt here o = goes i lock_biometric t lt here o
    goes_without_prompt i (unlock_key l) t lt here o = goes i (unlock_key l) t lt here tt
    goes_without_prompt i unlock_biometric t lt here o = goes i unlock_biometric t lt here tt
    goes_without_prompt i (use_key l) t lt here o = goes i (use_key l) t lt here tt
    goes_without_prompt i (audited l b) t lt here o = goes i (audited l b) t lt here tt
    goes_without_prompt i (notify_waiting l) t lt here o = goes i (notify_waiting l) t lt here tt
    goes_without_prompt i (notify_signed l p) t lt here o = goes i (notify_signed l p) t lt here tt
    goes_without_prompt i notify_stall t lt here o = goes i notify_stall t lt here tt

    -- No deadlock: while a request has something left to do, some request can go on.
    pub some_request_goes :
        (i : ℕ) (x : Effect) (t : List Effect)
        → i < n
        → s.rest i ≡ x ∷ t
        → (u : System) × Step n s u
    some_request_goes i x t lt here = elim (Option-cases s.prompt_owner) [
      | inl none_owns ↦ goes_without_prompt i x t lt here none_owns
      | inr (j, owned) ↦ prompt_holder_goes j owned
    ]
