-- ===== src/Tests/Concurrent.antt =====
-- Two requests for the same key at once, and requests one after the other under a rate limit.
use touchid_agent.FilePath.{base}
use touchid_agent.Agent.Stall.{note_biometric_outcome}
use touchid_agent.Prelude.{
  ℕ, ◌≤◌, true, List, [], ◌∷◌, some, ◌≡◌, refl, arith, inl, count, ◌⊎◌, ◌<◌,
}
use touchid_agent.Text.{codes, equal, split}
use touchid_agent.Policy.{
  new_peer_policy, check_caller, is_allowed_caller, matches, rate_limit_ceiling,
}
use touchid_agent.Policy.Rate.{check_rate, allow, bucket_of}
use touchid_agent.Policy.Rate.Window.{signed_in}
use touchid_agent.Agent.Requests.{
  World, Request, Effect, lock_key, unlock_key, lock_biometric, unlock_biometric, use_key, audited,
  notify_signed, by_name, sign_for,
}
use touchid_agent.Agent.Requests.Locks.Threads.{
  System, Step, Reach, begun, begin, advance, take_key, take_prompt, at_key, at_thread,
}
use touchid_agent.Agent.Requests.Locks.Exclusion.{uses_exclude}
use touchid_agent.Agent.Requests.Locks.Completion.{pending, steps, runs_end, AllDone, all_complete}
use touchid_agent.Agent.Requests.Rates.{signed_requests, sign_for_window}
use touchid_agent.Tests.Samples.{codec}
use touchid_agent.Tests.Signing.{world, request, agent}

abbrev behind : List Effect
behind =
    audited (codes "work") true
    ∷ notify_signed (codes "work") (by_name (codes "ssh"))
    ∷ unlock_biometric
    ∷ unlock_key (codes "work")
    ∷ []

traced :
    (sign_for codec world request agent).2
    ≡ lock_key (codes "work") ∷ lock_biometric ∷ use_key (codes "work") ∷ behind
unfolding sign_for equal check_caller new_peer_policy is_allowed_caller matches check_rate allow
    bucket_of note_biometric_outcome base split
traced = refl

abbrev both : System
both = begun codec (λ i. world) (λ i. request) (λ i. agent)

-- The first request takes the lock of the key, and then that of the prompt.
abbrev prompting : List Effect
prompting = use_key (codes "work") ∷ behind

abbrev taken : System
taken = record both {
  key_owner = at_key (codes "work") (some 0) both.key_owner;
  rest = at_thread 0 (lock_biometric ∷ prompting) both.rest;
}

abbrev holding : System
holding = record taken { prompt_owner = some 0; rest = at_thread 0 prompting taken.rest }

took : Step 2 both taken
took = take_key 0 (codes "work") (lock_biometric ∷ prompting) (omega arith) traced refl

held : Reach 2 both holding
held = advance (advance begin took) (take_prompt 0 prompting (omega arith) refl refl)

uses_exclude_example : ◌≡◌ {A = ℕ} 0 0
uses_exclude_example =
    uses_exclude codec (λ i. world) (λ i. request) (λ i. agent) 2 holding held 0 0 (codes "work")
      (codes "work") behind behind refl refl (inl refl)

runs_end_example :
    (AllDone 2 holding × (steps held ≡ pending 2 both.rest))
    ⊎ ((steps held < pending 2 both.rest) × (u : System) × Step 2 holding u)
runs_end_example = runs_end codec (λ i. world) (λ i. request) (λ i. agent) 2 holding held

all_complete_example : (u : System) × Reach 2 holding u × AllDone 2 u
all_complete_example = all_complete codec (λ i. world) (λ i. request) (λ i. agent) 2 holding held

abbrev served : List (World × Request)
served = (world, request) ∷ (world, request) ∷ []

sign_for_window_example :
    (count (signed_in (codes "work") 200) (signed_requests codec served agent) ≤ 10)
    × (count (signed_in (codes "work") 200) (signed_requests codec served agent)
        ≤ rate_limit_ceiling)
sign_for_window_example =
    sign_for_window codec true 10 [] served agent (codes "work") 200 (omega arith) refl
      (omega arith, (omega arith, tt))
