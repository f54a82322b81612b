-- ===== src/Agent/Requests.antt =====
-- `signFor` of agent.go: one request for a signature. Each effect on a lock, on the key and on the
-- user's screen is an entry of a trace, in order; the agent's state is passed along.
pub mod Outcome
pub mod Locks
pub mod Rates
pub mod Listing
pub mod Log
use touchid_agent.Prelude.{
  ℕ, ℤ, Bool, true, false, not, ◌&&◌, List, [], ◌∷◌, ◌++◌, Option, none, some, Result, ok, err,
  is_nil, if◌then◌else◌,
}
use touchid_agent.Text.{Text, equal, is_empty}
use touchid_agent.FilePath.{base}
use touchid_agent.Peer.{Peer, nobody}
use touchid_agent.Key.{Key, PublicKey}
use touchid_agent.Policy.{Symlinks, CallerError, PeerPolicy, check_caller, matches_any_rule}
use touchid_agent.Policy.Rate.{RateError, check_rate}
use touchid_agent.Audit.Encoding.{Codec}
use touchid_agent.Audit.{AuditLogger, Call, Written}
use touchid_agent.Audit
use touchid_agent.Agent.Failure.{Advice, classify_sign_error}
use touchid_agent.Agent.Stall.{StallState, PromptEnd, completed, failed, note_biometric_outcome}

pub data SignError : Type 0 where
  could_not_list : Text → SignError
  no_matching_key : SignError
  rejected_caller : Text → CallerError → SignError
  not_permitted_for_key : Text → Peer → SignError
  rejected_rate : Text → RateError → SignError
  no_signer : Text → Text → SignError
  sign_failed : Text → Advice → Text → SignError

-- Who asked, as the notification says it.
pub data PeerName : Type 0 where
  by_pid : ℤ → PeerName
  by_name : Text → PeerName

pub data Effect : Type 0 where
  lock_key unlock_key : Text → Effect
  lock_biometric unlock_biometric : Effect
  use_key : Text → Effect
  audited : Text → Bool → Effect
  notify_waiting : Text → Effect
  notify_signed : Text → PeerName → Effect
  notify_stall : Effect

pub record Agent : Type 0 where
  pub policy : Option PeerPolicy
  pub audit : Option AuditLogger
  pub stall : StallState

-- What the code outside answers while a request is served: the key store's list, the SSH library's
-- encoding of a public key, its signer for a key and that signer's signature; the file system's links;
-- the clock, at the rate check and at the end of the prompt; the text of an error; the formatted time
-- and the outcome of the audit log's write; and whether three seconds went by before the signature.
pub record World : Type 0 where
  pub keys : Result Text (List Key)
  pub blob : PublicKey → Option (List ℕ)
  pub new_signer : Key → Option Text
  pub signature : Key → List ℕ → Result Text (List ℕ)
  pub links : Symlinks
  pub rate_time : ℕ
  pub prompt_time : ℕ
  pub message : SignError → Text
  pub timestamp : Text
  pub written : Written
  pub waited : Bool

pub record Request : Type 0 where
  pub key_blob : List ℕ
  pub payload : List ℕ
  pub peer : Peer

abbrev pub Answer : Type 0
Answer = Result SignError (List ℕ) × Agent × List Effect

has_blob : Option (List ℕ) → List ℕ → Bool
has_blob none wanted = false
has_blob (some b) wanted = equal b wanted

-- The first key of the list whose encoding is the one asked for.
pub find_key : (PublicKey → Option (List ℕ)) → List ℕ → List Key → Option Key
unfolding has_blob
find_key blob wanted [] = none
find_key blob wanted (k ∷ ks) =
    let rest = find_key blob wanted ks in
    if has_blob (blob k.public_key) wanted then some k else rest

matched_in : World → Request → Result Text (List Key) → Option Key
matched_in w q (err e) = none
matched_in w q (ok keys) = find_key w.blob q.key_blob keys

-- The key that the request is about, if the store's list can be had and holds it.
pub matched : World → Request → Option Key
unfolding matched_in
matched w q = matched_in w q w.keys

-- A nil logger logs nothing.
pub log_call : Codec → Call → Written → Option AuditLogger → Option AuditLogger
log_call codec c w none = none
log_call codec c w (some a) = some (Audit.sign codec c w a)

-- `CheckRate` on the agent's policy, which may be nil.
abbrev pub Charged : Type 0
Charged = Option PeerPolicy × Result RateError (Unit {0})

charged : PeerPolicy × Result RateError (Unit {0}) → Charged
charged (p, r) = (some p, r)

pub charge_rate : Option PeerPolicy → Text → ℕ → Charged
unfolding charged
charge_rate none label now = (none, ok tt)
charge_rate (some p) label now = charged (check_rate p label now)

peer_name : Peer → PeerName
peer_name peer = if is_empty peer.path then by_pid peer.pid else by_name (base peer.path)

warned : Bool → List Effect
warned true = notify_stall ∷ []
warned false = []

after : List Effect → Answer → Answer
after t (r, a, t') = (r, a, t ++ t')

-- The prompt's lock is taken for keys that require touch only, and held to the end of the call.
enclosed : Bool → Answer → Answer
enclosed false (r, a, t) = (r, a, t)
enclosed true (r, a, t) = (r, a, lock_biometric ∷ (t ++ unlock_biometric ∷ []))

-- The key's own lock is held from here to the end of the call.
locked : Text → Answer → Answer
locked label (r, a, t) = (r, a, lock_key label ∷ (t ++ unlock_key label ∷ []))

pub call : World → Request → Key → Bool → Option Text → Call
call w q k success error = record {
  timestamp = w.timestamp;
  label = k.label;
  success = success;
  error = error;
  peer = q.peer;
}

module _ (codec : Codec) (w : World) (q : Request) where
  reject : Key → SignError → Agent → Answer
  unfolding call log_call
  reject k e a = (
    err e,
    record a { audit = log_call codec (call w q k false (some (w.message e))) w.written a.audit },
    audited k.label false ∷ [],
  )

  accept : Key → List ℕ → Agent → Answer
  unfolding call log_call peer_name
  accept k sig a = (
    ok sig,
    record a { audit = log_call codec (call w q k true none) w.written a.audit },
    audited k.label true ∷ notify_signed k.label (peer_name q.peer) ∷ [],
  )

  -- `noteBiometricOutcome`, for keys that raise a prompt
  note : Key → PromptEnd → Agent → Agent × List Effect
  unfolding warned
  note k end a =
      if k.require_touch
      then (
        record a { stall = (note_biometric_outcome end w.prompt_time a.stall).0 },
        warned (note_biometric_outcome end w.prompt_time a.stall).1,
      )
      else (a, [])

  with_signature : Key → Result Text (List ℕ) → Agent → Answer
  unfolding note after reject accept
  with_signature k (err e) a =
      let (a', t) = note k (failed e) a in
      after t (reject k (sign_failed k.label (classify_sign_error e) e) a')
  with_signature k (ok sig) a = let (a', t) = note k completed a in after t (accept k sig a')

  waiting : Key → List Effect
  waiting k = if w.waited then notify_waiting k.label ∷ [] else []

  prompt_and_sign : Key → Agent → Answer
  unfolding with_signature enclosed after
  prompt_and_sign k a =
      enclosed k.require_touch
        (after (use_key k.label ∷ []) (with_signature k (w.signature k q.payload) a))

  with_signer : Key → Option Text → Agent → Answer
  unfolding reject prompt_and_sign
  with_signer k (some e) a = reject k (no_signer k.label e) a
  with_signer k none a = prompt_and_sign k a

  after_rate : Key → Result RateError (Unit {0}) → Agent → Answer
  unfolding reject with_signer waiting after
  after_rate k (err e) a = reject k (rejected_rate k.label e) a
  after_rate k (ok u) a = after (waiting k) (with_signer k (w.new_signer k) a)

  check_rate_of : Key → Agent → Answer
  unfolding charge_rate after_rate
  check_rate_of k a =
      let (policy, r) = charge_rate a.policy k.label w.rate_time in
      after_rate k r (record a { policy = policy })

  check_key_rules : Key → Agent → Answer
  unfolding reject check_rate_of is_empty
  check_key_rules k a =
      if not (is_nil k.caller_rules) && not (matches_any_rule w.links k.caller_rules q.peer)
      then reject k (not_permitted_for_key k.label q.peer) a
      else check_rate_of k a

  after_caller : Key → Result CallerError (Unit {0}) → Agent → Answer
  unfolding reject check_key_rules
  after_caller k (err e) a = reject k (rejected_caller k.label e) a
  after_caller k (ok u) a = check_key_rules k a

  with_match : Option Key → Agent → Answer
  unfolding locked after_caller
  with_match none a = (err no_matching_key, a, [])
  with_match (some k) a = locked k.label (after_caller k (check_caller w.links a.policy q.peer) a)

  with_keys : Result Text (List Key) → Agent → Answer
  unfolding with_match find_key
  with_keys (err e) a = (err (could_not_list e), a, [])
  with_keys (ok keys) a = with_match (find_key w.blob q.key_blob keys) a

-- `signFor`
unfoldable pub sign_for : Codec → World → Request → Agent → Answer
unfolding with_keys
sign_for codec w q a = with_keys codec w q w.keys a

-- `connAgent.Sign` and `SignWithFlags` sign for the peer of the connection; those of `Agent` itself
-- sign for nobody.
abbrev pub conn_sign : Codec → World → Peer → List ℕ → List ℕ → Agent → Answer
conn_sign codec w peer key_blob payload a =
    sign_for codec w (record { key_blob = key_blob; payload = payload; peer = peer }) a

abbrev pub plain_sign : Codec → World → List ℕ → List ℕ → Agent → Answer
plain_sign codec w key_blob payload a = conn_sign codec w nobody key_blob payload a
