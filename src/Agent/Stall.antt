-- ===== src/Agent/Stall.antt =====
-- `noteBiometricOutcome`: the advice after three prompts that did not complete. Times are nanoseconds.
use touchid_agent.Prelude.{
  ℕ, suc, ◌+◌, ◌*◌, ◌^◌, ◌≤◌, Bool, true, false, not, ◌||◌, List, [], ◌∷◌, ltb, ◌==◌, zero, some,
  get_elem?, Bool-cases, ◌≡◌, inl, inr, arith, if◌then◌else◌,
}
use touchid_agent.Text.{Text}
use touchid_agent.Agent.Failure.{is_biometric_non_completion}

abbrev pub biometric_stall_threshold : ℕ
biometric_stall_threshold = 3

abbrev pub biometric_stall_window : ℕ
biometric_stall_window = 3 * 60 * 10 ^ 9

pub record StallState : Type 0 where
  pub stall_count : ℕ
  pub stall_start : ℕ

abbrev pub no_stall : StallState
no_stall = record { stall_count = 0; stall_start = 0 }

-- How a prompt-raising signature ended.
pub data PromptEnd : Type 0 where
  completed : PromptEnd
  failed : Text → PromptEnd

count_failure : ℕ → StallState → StallState × Bool
count_failure now s =
    if s.stall_count == 0 || ltb (s.stall_start + biometric_stall_window) now
    then (record { stall_count = 1; stall_start = now }, false)
    else (
      record s { stall_count = s.stall_count + 1 },
      s.stall_count + 1 == biometric_stall_threshold,
    )

-- The new counters, and whether the user is warned.
unfoldable pub note_biometric_outcome : PromptEnd → ℕ → StallState → StallState × Bool
unfolding count_failure
note_biometric_outcome completed now s = (record s { stall_count = 0 }, false)
note_biometric_outcome (failed e) now s =
    if not (is_biometric_non_completion e) then (s, false) else count_failure now s

-- How the watch stands after the ends of prompts, each with its time, the latest first.
unfoldable pub watch : List (PromptEnd × ℕ) → StallState
watch [] = no_stall
watch ((e, now) ∷ before) = (note_biometric_outcome e now (watch before)).0

-- The times of the prompts that did not complete, the latest first, back to the last completed one.
abbrev counted : Bool → ℕ → List ℕ → List ℕ
counted true t ts = t ∷ ts
counted false t ts = ts

abbrev pub open_prompts : List (PromptEnd × ℕ) → List ℕ
open_prompts [] = []
open_prompts ((completed, t) ∷ before) = []
open_prompts ((failed e, t) ∷ before) =
    counted (is_biometric_non_completion e) t (open_prompts before)

-- The counter stands for the latest prompts that did not complete, from its starting time on.
abbrev Reflects : StallState → List ℕ → Type 0
Reflects s ts = (n : ℕ) → s.stall_count ≡ suc n → get_elem? ts n ≡ some s.stall_start

count_failure-Reflects :
    (now : ℕ) (s : StallState) (ts : List ℕ)
    → Reflects s ts
    → Reflects (count_failure now s).0 (now ∷ ts)
unfolding count_failure
count_failure-Reflects now s ts r zero e =
    elim (Bool-cases (s.stall_count == 0 || ltb (s.stall_start + biometric_stall_window) now)) [
      | inl fresh ↦ rw fresh
      | inr going ↦ absurd (ground arith)
    ]
count_failure-Reflects now s ts r (suc n) e =
    elim (Bool-cases (s.stall_count == 0 || ltb (s.stall_start + biometric_stall_window) now)) [
      | inl fresh ↦ absurd (ground arith)
      | inr going ↦ rw going (r n (ground arith))
    ]

failed-Reflects :
    (m : Text) (now : ℕ) (s : StallState) (ts : List ℕ)
    → Reflects s ts
    → Reflects
        (note_biometric_outcome (failed m) now s).0
        (counted (is_biometric_non_completion m) now ts)
unfolding note_biometric_outcome
failed-Reflects m now s ts r = elim (Bool-cases (is_biometric_non_completion m)) [
  | inl counts ↦ rw counts (count_failure-Reflects now s ts r)
  | inr other ↦ rw other r
]

watch-Reflects : (h : List (PromptEnd × ℕ)) → Reflects (watch h) (open_prompts h)
unfolding watch
watch-Reflects [] n e = absurd (omega arith)
watch-Reflects ((completed, now) ∷ before) n e =
    absurd (unfold note_biometric_outcome in omega arith)
watch-Reflects ((failed m, now) ∷ before) n e =
    failed-Reflects m now (watch before) (open_prompts before) (watch-Reflects before) n e

warned_at_two :
    (e : Text) (now : ℕ) (s : StallState)
    → (note_biometric_outcome (failed e) now s).1 ≡ true
    → (is_biometric_non_completion e ≡ true)
      × (s.stall_count ≡ 2)
      × (now ≤ s.stall_start + biometric_stall_window)
unfolding note_biometric_outcome
warned_at_two e now s h = ground arith

-- A warning is given only behind three prompts that did not complete, none completed between them, and
-- the third no later than three minutes after the first; a completed prompt never warns.
pub warning_needs_three :
    (end : PromptEnd) (now : ℕ) (before : List (PromptEnd × ℕ))
    → (note_biometric_outcome end now (watch before)).1 ≡ true
    → (first : ℕ) × (get_elem? (open_prompts ((end, now) ∷ before)) 2 ≡ some first)
      × (now ≤ first + biometric_stall_window)
warning_needs_three completed now before h = absurd (unfold note_biometric_outcome in cc h)
warning_needs_three (failed e) now before h =
    let (counts, two, within) = warned_at_two e now (watch before) h in
    ((watch before).stall_start, rw counts (watch-Reflects before 1 two), within)

-- Three prompts in a row that do not complete, within three minutes of the first, from a watch that has
-- counted none: the third warns, and the first two do not.
pub three_in_a_row_warn :
    (s : StallState) (a b c : Text) (t u v : ℕ)
    → s.stall_count ≡ 0
    → is_biometric_non_completion a ≡ true
    → is_biometric_non_completion b ≡ true
    → is_biometric_non_completion c ≡ true
    → u ≤ t + biometric_stall_window
    → v ≤ t + biometric_stall_window
    → ((note_biometric_outcome (failed a) t s).1 ≡ false)
      × ((note_biometric_outcome (failed b) u (note_biometric_outcome (failed a) t s).0).1 ≡ false)
      × ((note_biometric_outcome
            (failed c)
            v
            (note_biometric_outcome (failed b) u (note_biometric_outcome (failed a) t s).0).0).1
          ≡ true)
unfolding note_biometric_outcome
three_in_a_row_warn s a b c t u v z ha hb hc hu hv = rw (ha, hb, hc) (ground arith)
