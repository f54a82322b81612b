-- ===== src/Agent/Requests/Locks/Threads.antt =====
-- Requests served at once, as `serveConn` of agent.go runs them in goroutines: the effects of each in
-- its own order, interleaved in any way that the two kinds of `sync.Mutex` allow.
use touchid_agent.Prelude.{
  ℕ, ◌<◌, Bool, true, false, List, ◌∷◌, Option, none, some, ◌≡◌, ◌==◌, if◌then◌else◌,
}
use touchid_agent.Text.{Text, equal}
use touchid_agent.Audit.Encoding.{Codec}
use touchid_agent.Agent.Requests.{
  Agent, World, Request, Effect, lock_key, unlock_key, lock_biometric, unlock_biometric, sign_for,
}

-- Who holds the lock of each key (`keyMu`) and that of the prompt (`biometricMu`), and what each request
-- has yet to do.
pub record System : Type 0 where
  pub key_owner : Text → Option ℕ
  pub prompt_owner : Option ℕ
  pub rest : ℕ → List Effect

abbrev pub at_key : Text → Option ℕ → (Text → Option ℕ) → Text → Option ℕ
at_key l o owner l' = if equal l l' then o else owner l'

abbrev pub at_thread {ℓ} : {A : Type ℓ} → ℕ → A → (ℕ → A) → ℕ → A
at_thread i v f j = if i == j then v else f j

abbrev pub is_quiet : Effect → Bool
is_quiet (lock_key l) = false
is_quiet (unlock_key l) = false
is_quiet lock_biometric = false
is_quiet unlock_biometric = false
is_quiet _ = true

-- One effect of one of the `n` requests. A lock is taken only if it is free.
pub data Step (n : ℕ) (s : System) : System → Type 0 where
  take_key :
      (i : ℕ) (l : Text) (t : List Effect)
      → i < n
      → s.rest i ≡ lock_key l ∷ t
      → s.key_owner l ≡ none
      → Step n s
          (record s { key_owner = at_key l (some i) s.key_owner; rest = at_thread i t s.rest })
  give_key :
      (i : ℕ) (l : Text) (t : List Effect)
      → i < n
      → s.rest i ≡ unlock_key l ∷ t
      → Step n s (record s { key_owner = at_key l none s.key_owner; rest = at_thread i t s.rest })
  take_prompt :
      (i : ℕ) (t : List Effect)
      → i < n
      → s.rest i ≡ lock_biometric ∷ t
      → s.prompt_owner ≡ none
      → Step n s (record s { prompt_owner = some i; rest = at_thread i t s.rest })
  give_prompt :
      (i : ℕ) (t : List Effect)
      → i < n
      → s.rest i ≡ unlock_biometric ∷ t
      → Step n s (record s { prompt_owner = none; rest = at_thread i t s.rest })
  proceed :
      (i : ℕ) (e : Effect) (t : List Effect)
      → i < n
      → s.rest i ≡ e ∷ t
      → is_quiet e ≡ true
      → Step n s (record s { rest = at_thread i t s.rest })

-- Requests that nobody has begun to serve, with the world and the agent's state as each will meet them.
abbrev pub begun : Codec → (ℕ → World) → (ℕ → Request) → (ℕ → Agent) → System
begun codec w q a = record {
  key_owner = λ l. none;
  prompt_owner = none;
  rest = λ i. (sign_for codec (w i) (q i) (a i)).2;
}

pub data Reach (n : ℕ) (s : System) : System → Type 0 where
  begin : Reach n s s
  advance : {t u : System} → Reach n s t → Step n t u → Reach n s u
