-- ===== src/Tests/Logs.antt =====
-- Audit logs of two events, and the log of which one line ends in a carriage return.
use touchid_agent.Prelude.{
  true, false, List, [], ◌∷◌, ◌++◌, Option, none, some, ok, ◌≡◌, ◌⊎◌, refl, arith,
}
use touchid_agent.Text.{codes, is_empty, equal}
use touchid_agent.Audit.Scan.{Bytes, newline, carriage_return, render, drop_cr, raw_lines}
use touchid_agent.Audit.{
  Call, Written, all, short, AuditLogger, event, new_stderr_audit_logger, verify_audit_chain,
  chain_intact, genesis_prev, sign,
}
use touchid_agent.Audit.Chain.{sign_all, Fits, AllClean, verify-sign_all}
use touchid_agent.Audit.Tamper.{tamper_evident, scanned, head_hash, Collision}
use touchid_agent.Audit.Blind.{carriage_return_unseen}
use touchid_agent.Tests.Samples.{codec, codec-IsFaithful, length-shifted, ssh_peer}

abbrev served : Call
served = record {
  timestamp = codes "2026-01-01T00:00:00Z";
  label = codes "work";
  success = true;
  error = none;
  peer = ssh_peer;
}

same_bytes : {a b : Bytes} → ◌≡◌ {A = Option Bytes} (some a) (some b) → a ≡ b
same_bytes e = cc

pub every_call-Fits : (c : Call) → Fits codec c
unfolding event
every_call-Fits c seq prev l bound digest e =
    rw (← same_bytes e) (omega (arith, digest, length-shifted prev))

abbrev calls : List (Call × Written)
calls =
    (served, all)
    ∷ (record served { success = false; error = some (codes "denied") }, short 0)
    ∷ (served, all)
    ∷ []

calls-AllClean : AllClean codec calls
calls-AllClean = (every_call-Fits _, tt, (every_call-Fits _, refl, (every_call-Fits _, tt, tt)))

abbrev logged : AuditLogger
logged = sign_all codec calls new_stderr_audit_logger

logged-verifies : verify_audit_chain codec (ok logged.file) ≡ ok (chain_intact 2 2)
logged-verifies = verify-sign_all codec codec-IsFaithful calls calls-AllClean

-- The same records behind an empty line
abbrev spaced : Bytes
spaced = newline ∷ logged.file

spaced-verifies : verify_audit_chain codec (ok spaced) ≡ ok (chain_intact 2 2)
unfolding verify_audit_chain raw_lines is_empty drop_cr sign_all sign event equal
spaced-verifies = refl

same_head :
    head_hash codec genesis_prev (scanned codec (raw_lines spaced))
    ≡ head_hash codec genesis_prev (scanned codec (raw_lines logged.file))
unfolding sign_all sign event raw_lines drop_cr is_empty
same_head = refl

tamper_evident_example :
    (scanned codec (raw_lines spaced) ≡ scanned codec (raw_lines logged.file)) ⊎ Collision codec
tamper_evident_example =
    tamper_evident codec spaced logged.file 2 spaced-verifies logged-verifies same_head

carriage_return_unseen_example :
    verify_audit_chain codec (ok (render ([] ++ (codes "{}" ++ carriage_return ∷ []) ∷ [])))
    ≡ verify_audit_chain codec (ok (render ([] ++ codes "{}" ∷ [])))
unfolding drop_cr
carriage_return_unseen_example =
    carriage_return_unseen codec (codes "{}") refl (omega arith) [] [] tt
      ((λ e. omega arith), ((λ e. omega arith), tt)) tt
