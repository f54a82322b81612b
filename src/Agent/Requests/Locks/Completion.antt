-- ===== src/Agent/Requests/Locks/Completion.antt =====
-- Requests served at once come to an end: a run that cannot go on is complete, and no run is longer than
-- the requests have effects.
use touchid_agent.Prelude.{
  ℕ, zero, suc, ◌+◌, ◌<◌, ◌≤◌, List, [], ◌∷◌, ◌≡◌, refl, ap, arith, ◌==◌, length, Bool-cases, inl,
  inr, ◌⊎◌,
}
use touchid_agent.Audit.Encoding.{Codec}
use touchid_agent.Agent.Requests.{Agent, World, Request, Effect}
use touchid_agent.Agent.Requests.Locks.Threads.{
  System, at_thread, Step, take_key, give_key, take_prompt, give_prompt, proceed, begun, Reach,
  begin, advance,
}
use touchid_agent.Agent.Requests.Locks.Exclusion.{some_request_goes}

-- How many effects the first `n` requests have left.
pub pending : ℕ → (ℕ → List Effect) → ℕ
pending zero rest = 0
pending (suc n) rest = pending n rest + length (rest n)

pending-at_thread_of_le :
    (n i : ℕ) (t : List Effect) (rest : ℕ → List Effect)
    → n ≤ i
    → pending n (at_thread i t rest) ≡ pending n rest
unfolding pending
pending-at_thread_of_le zero i t rest h = refl
pending-at_thread_of_le (suc n) i t rest h = ground (arith, pending-at_thread_of_le n i t rest)

pending-at_thread :
    (n i : ℕ) (t : List Effect) (rest : ℕ → List Effect)
    → i < n
    → pending n (at_thread i t rest) + length (rest i) ≡ pending n rest + length t
unfolding pending
pending-at_thread zero i t rest h = absurd (omega arith)
pending-at_thread (suc n) i t rest h = elim (Bool-cases (i == n)) [
  | inl e ↦
      let same : i ≡ n = ground arith in
      ground (arith, pending-at_thread_of_le n i t rest, ap (λ (j : ℕ). length (rest j)) same)
  | inr e ↦ ground (arith, pending-at_thread n i t rest)
]

-- Taking the first effect away.
pending-behind :
    (n i : ℕ) (x : Effect) (t : List Effect) (rest : ℕ → List Effect)
    → i < n
    → rest i ≡ x ∷ t
    → pending n (at_thread i t rest) + 1 ≡ pending n rest
pending-behind n i x t rest lt here =
    omega (arith, pending-at_thread n i t rest lt, ap (λ (l : List Effect). length l) here)

pending-Step : {n : ℕ} {s u : System} → Step n s u → pending n u.rest + 1 ≡ pending n s.rest
pending-Step {n} {s} (take_key i l t lt here o) = pending-behind n i _ t s.rest lt here
pending-Step {n} {s} (give_key i l t lt here) = pending-behind n i _ t s.rest lt here
pending-Step {n} {s} (take_prompt i t lt here o) = pending-behind n i _ t s.rest lt here
pending-Step {n} {s} (give_prompt i t lt here) = pending-behind n i _ t s.rest lt here
pending-Step {n} {s} (proceed i e t lt here q) = pending-behind n i _ t s.rest lt here

abbrev pub steps : {n : ℕ} {s u : System} → Reach n s u → ℕ
steps begin = 0
steps (advance r st) = suc (steps r)

-- Each step takes one effect away.
steps-pending :
    {n : ℕ} {s u : System} (r : Reach n s u) → steps r + pending n u.rest ≡ pending n s.rest
steps-pending begin = omega arith
steps-pending (advance r st) = omega (arith, steps-pending r, pending-Step st)

abbrev pub AllDone : ℕ → System → Type 0
AllDone n s = (i : ℕ) → i < n → s.rest i ≡ []

length-zero : (t : List Effect) → length t ≡ 0 → t ≡ []
length-zero [] h = refl
length-zero (x ∷ t) h = absurd (omega arith)

pending-zero : (n : ℕ) (rest : ℕ → List Effect) → pending n rest ≡ 0 → (i : ℕ) → i < n → rest i ≡ []
unfolding pending
pending-zero zero rest h i lt = absurd (omega arith)
pending-zero (suc n) rest h i lt = elim (Bool-cases (i == n)) [
  | inl e ↦ let same : i ≡ n = ground arith in rw same (length-zero (rest n) (omega arith))
  | inr e ↦ pending-zero n rest (omega arith) i (ground arith)
]

-- One of the first `n` requests that has something left.
abbrev Unfinished : ℕ → (ℕ → List Effect) → Type 0
Unfinished n rest = (i : ℕ) × (x : Effect) × (t : List Effect) × (i < n) × (rest i ≡ x ∷ t)

last_or_earlier :
    (n k : ℕ) (rest : ℕ → List Effect) (l : List Effect)
    → rest n ≡ l
    → pending n rest + length (rest n) ≡ suc k
    → (pending n rest ≡ suc k → Unfinished n rest)
    → Unfinished (suc n) rest
last_or_earlier n k rest [] same h earlier =
    let (i, x, t, lt, first) = earlier (omega (arith, ap (λ (m : List Effect). length m) same)) in
    (i, x, t, omega arith, first)
last_or_earlier n k rest (x ∷ t) same h earlier = (n, x, t, omega arith, same)

pending-Unfinished : (n k : ℕ) (rest : ℕ → List Effect) → pending n rest ≡ suc k → Unfinished n rest
unfolding pending
pending-Unfinished zero k rest h = absurd (omega arith)
pending-Unfinished (suc n) k rest h =
    last_or_earlier n k rest (rest n) refl h (pending-Unfinished n k rest)

module _ (codec : Codec) (w : ℕ → World) (q : ℕ → Request) (a : ℕ → Agent) (n : ℕ) where
  completes :
      (k : ℕ) (s v : System)
      → pending n v.rest ≡ k
      → Reach n (begun codec w q a) v
      → Reach n s v
      → (u : System) × Reach n s u × AllDone n u
  completes zero s v h r from = (v, from, pending-zero n v.rest h)
  completes (suc k) s v h r from =
      let (i, x, t, lt, first) = pending-Unfinished n k v.rest h in
      let (u, st) = some_request_goes codec w q a n v r i x t lt first in
      completes k s u (omega (arith, pending-Step st)) (advance r st) (advance from st)

  -- From every state that requests served at once can reach, all of them can be brought to their end.
  pub all_complete :
      (s : System) → Reach n (begun codec w q a) s → (u : System) × Reach n s u × AllDone n u
  all_complete s r = completes (pending n s.rest) s s refl r begin

  ends :
      (k : ℕ) (s : System) (r : Reach n (begun codec w q a) s)
      → pending n s.rest ≡ k
      → (AllDone n s × (steps r ≡ pending n (begun codec w q a).rest))
        ⊎ ((steps r < pending n (begun codec w q a).rest) × (u : System) × Step n s u)
  ends zero s r h = inl (pending-zero n s.rest h, omega (arith, steps-pending r))
  ends (suc k) s r h =
      let (i, x, t, lt, first) = pending-Unfinished n k s.rest h in
      let (u, st) = some_request_goes codec w q a n s r i x t lt first in
      inr (omega (arith, steps-pending r), u, st)

  -- However the requests that are served at once are scheduled, the run comes to an end, and does so only
  -- when it is complete: either all requests are done, after just as many steps as they have effects
  -- together, or fewer steps have been taken and some request can go on.
  pub runs_end :
      (s : System) (r : Reach n (begun codec w q a) s)
      → (AllDone n s × (steps r ≡ pending n (begun codec w q a).rest))
        ⊎ ((steps r < pending n (begun codec w q a).rest) × (u : System) × Step n s u)
  runs_end s r = ends (pending n s.rest) s r refl
