-- ===== src/Agent/Failure.antt =====
-- The texts of signing errors: `isBiometricNonCompletion` and `classifySignError`.
use touchid_agent.Prelude.{
  Bool, true, ◌&&◌, ◌||◌, List, [], ◌∷◌, ◌++◌, any, ◌≡◌, ◌⊎◌, arith, if◌then◌else◌,
}
use touchid_agent.Text.{Text, codes, contains}
use touchid_agent.Text.Search.{contains-append}

abbrev local_authentication : Text
local_authentication = codes "com.apple.LocalAuthentication"

unfoldable pub is_biometric_non_completion : Text → Bool
is_biometric_non_completion msg =
    contains msg local_authentication
    && any (contains msg) (codes "Code=-2" ∷ codes "Code=-4" ∷ codes "Code=-9" ∷ [])

-- What the user is advised to do. Each advice but those on the hardware's state keeps the error.
pub data Advice : Type 0 where
  session_locked cancelled taken_over system_authentication cancelled_by_system invalidated
        not_available not_enrolled locked_out no_passcode plain :
      Advice

-- `has`, and `laCode` with its closing space
abbrev has : Text → List Text → Bool
has msg subs = any (contains msg) subs

la_code : Text → Text → Bool
la_code msg code = contains msg local_authentication && contains msg (code ++ codes " ")

unfoldable pub classify_sign_error : Text → Advice
unfolding la_code
classify_sign_error msg =
    if has msg (
      codes "errSecInteractionNotAllowed"
      ∷ codes "Code=-25308"
      ∷ codes "unable to sign digest"
      ∷ [])
    then session_locked
    else if la_code msg (codes "Code=-2")
        || has msg (codes "userCancel" ∷ codes "User cancel" ∷ codes "LAError -2" ∷ [])
    then cancelled
    else if la_code msg (codes "Code=-4")
        && has msg (codes "Canceled by another authentication" ∷ [])
    then taken_over
    else if la_code msg (codes "Code=-4") && has msg (codes "System authentication is running" ∷ [])
    then system_authentication
    else if la_code msg (codes "Code=-4") || has msg (codes "systemCancel" ∷ [])
    then cancelled_by_system
    else if la_code msg (codes "Code=-9")
        || has msg (codes "appCancel" ∷ codes "Invalidated by client" ∷ [])
    then invalidated
    else if has msg (codes "biometryNotAvailable" ∷ codes "LAError -6" ∷ [])
    then not_available
    else if has msg (codes "biometryNotEnrolled" ∷ codes "LAError -7" ∷ [])
    then not_enrolled
    else if has msg (codes "biometryLockout" ∷ codes "LAError -8" ∷ [])
    then locked_out
    else if has msg (codes "passcodeNotSet" ∷ codes "LAError -5" ∷ [])
    then no_passcode
    else plain

-- Another authentication, or the system's own, took the sensor: the watch counts such a prompt as one
-- that did not complete.
pub taken_over_counts :
    (msg : Text)
    → (classify_sign_error msg ≡ taken_over) ⊎ (classify_sign_error msg ≡ system_authentication)
    → is_biometric_non_completion msg ≡ true
unfolding classify_sign_error is_biometric_non_completion
taken_over_counts msg h = ground (arith, contains-append msg (codes "Code=-4") (codes " "))
