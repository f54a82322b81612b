-- ===== src/Tests/Commands.antt =====
-- The command line, the list of processes, a log that is verified, a notification, a caller that is
-- identified, and the keys that are listed.
use touchid_agent.FilePath.{base}
use touchid_agent.Prelude.{
  pos, true, false, List, [], ◌∷◌, ◌++◌, Option, none, some, Result, ok, err, ◌≡◌, ◌↔◌, refl, ◌⊎◌,
}
use touchid_agent.Text.{
  Text, codes, equal, split, is_empty, cut, trim_space, trim_right, trim_left, is_space,
}
use touchid_agent.Audit.Scan.{Bytes}
use touchid_agent.Peer.{Answers, peer_creds}
use touchid_agent.Peer.Identity.{Lookup, SecCode, resolve_caller_identity, peer_code_identity, hex}
use touchid_agent.Peer.Identity.Trusted.{Found, identity_vouched}
use touchid_agent.Audit.{new_stderr_audit_logger, chain_intact}
use touchid_agent.Agent.Notice.{
  replace_rune, remove_openings, notify_script, script_head, script_tail,
}
use touchid_agent.Agent.Notice.Quoted.{read_string, notification_is_quoted}
use touchid_agent.Key.{Key, PublicKey}
use touchid_agent.Agent.Requests.{sign_for, matched, no_matching_key}
use touchid_agent.Agent.Requests.Listing.{list, agent_keys, shows, listed_or_refused}
use touchid_agent.Agent.Requests.Log.Sessions.{Session, sessions, SessionsFit, logged_in}
use touchid_agent.Commands.{Machine, log_intact}
use touchid_agent.Commands.Audited.{cmd_verify_audit}
use touchid_agent.Commands.Audited.{sessions_accepted}
use touchid_agent.Commands.Cli.{Flags, serve, choose, run_settings}
use touchid_agent.Commands.Cli.Served.{asks_first, asks_for_keys, OneMode, serves_iff}
use touchid_agent.Commands.Stale.{parse_stale_l_mode_processes, stale_of_line}
use touchid_agent.Commands.Stale.Found.{Some, IsStale, reported_iff}
use touchid_agent.Tests.Samples.{codec, codec-IsFaithful}
use touchid_agent.Tests.Signing.{world, request, agent, key}
use touchid_agent.Tests.Logs.{every_call-Fits}

abbrev pub flags : Flags
flags = record {
  show_version = false;
  arguments = 0;
  install_plist = false;
  migrate_plist = false;
  ensure_user_plist = false;
  verify_audit = false;
  create_key = [];
  no_touch = false;
  post_hook = [];
  key_callers = [];
  list_keys = false;
  list_json = false;
  status_path = [];
  delete_key = [];
  delete_every = false;
  launchd_mode = false;
  socket_path = codes "/tmp/agent.sock";
  plist_path = [];
  dry_run = false;
  no_reload = false;
  audit_log_path = [];
  no_peer_check = false;
  rate_limit = pos 0;
  allowed_callers_file = [];
  require_hardened = false;
}

serves_iff_example :
    (choose (codes "/log") none flags ≡ serve (codes "/tmp/agent.sock") false (run_settings flags))
    ↔ ((asks_first flags ≡ false)
        × (asks_for_keys flags ≡ false)
        × (◌≡◌ {A = Option Text} none none)
        × OneMode flags (codes "/tmp/agent.sock") false
        × (run_settings flags ≡ run_settings flags))
serves_iff_example =
    serves_iff (codes "/log") (codes "/tmp/agent.sock") none flags false (run_settings flags)

pub chosen :
    choose (codes "/log") none flags ≡ serve (codes "/tmp/agent.sock") false (run_settings flags)
unfolding choose is_empty
chosen = refl

abbrev processes : Text
processes = codes "   71 /usr/bin/touchid-agent -v -l /tmp/a\n  72 vi -l /tmp/a\n"

found : parse_stale_l_mode_processes processes (codes "/tmp/a") (pos 5) ≡ pos 71 ∷ []
unfolding parse_stale_l_mode_processes split stale_of_line cut trim_space trim_right trim_left
    is_space equal base is_empty
found = refl

reported_iff_example :
    Some (λ p. p ≡ pos 71) (parse_stale_l_mode_processes processes (codes "/tmp/a") (pos 5))
    ↔ Some (IsStale (codes "/tmp/a") (pos 5) (pos 71)) (split processes 10)
reported_iff_example = reported_iff (codes "/tmp/a") (pos 5) (pos 71) processes

-- Two sessions of one request each, the second without a policy
abbrev two_sessions : List Session
two_sessions = (agent.policy, (world, request) ∷ []) ∷ (none, (world, request) ∷ []) ∷ []

two_sessions-Fit : SessionsFit codec two_sessions new_stderr_audit_logger
two_sessions-Fit = (
  (λ k e. every_call-Fits _, tt, tt),
  λ next e. ((λ k e'. every_call-Fits _, tt, tt), λ later e'. tt),
)

abbrev read_log : Text → Result Text Bytes
read_log path = sessions codec two_sessions []

abbrev machine : Machine
machine = record { stored = []; pub_files = []; printed = [] }

sessions_accepted_example : cmd_verify_audit codec read_log (codes "/log") machine ≡ (
  ok tt,
  record machine {
    printed =
        log_intact
          (codes "/log")
          (chain_intact (logged_in codec two_sessions) (logged_in codec two_sessions))
        ∷ [];
  },
)
sessions_accepted_example =
    sessions_accepted codec codec-IsFaithful two_sessions two_sessions-Fit read_log (codes "/log")
      machine refl

notification_is_quoted_example :
    (string : Text) × (notify_script (codes "Signed \"$(x)\\`") ≡ script_head ++ b'"' ∷ string)
    × (read_string string
        ≡ some (remove_openings (replace_rune b'`' [] (codes "Signed \"$(x)\\`")), script_tail))
notification_is_quoted_example = notification_is_quoted (codes "Signed \"$(x)\\`")

abbrev code_object : SecCode
code_object = record {
  is_valid = true;
  anchor_apple = true;
  anchor_apple_generic = true;
  info = some (record {
    team_identifier = none;
    identifier = some (codes "com.apple.ssh");
    main_executable = some (codes "/usr/bin/ssh");
    flags = some 0x10000;
    unique = some (0xab ∷ 0x01 ∷ []);
  });
}

abbrev lookup : Lookup
lookup = record { token = true; token_data = true; attributes = true; code = some code_object }

abbrev answers : Answers
answers = record {
  connection = true;
  peer_pid = some (pos 71);
  peer_cred = some 501;
  identity = resolve_caller_identity lookup;
  pid_path = λ p. codes "/usr/bin/other";
}

hash_read : (peer_creds answers).cd_hash ≡ codes "ab01"
unfolding peer_creds resolve_caller_identity peer_code_identity hex
hash_read = refl

identity_vouched_example :
    (((peer_creds answers).signed ≡ false) ⊎ Found lookup (λ c. c.is_valid))
    × (((peer_creds answers).apple_platform ≡ false) ⊎ Found lookup (λ c. c.anchor_apple))
    × (((peer_creds answers).apple_anchored ≡ false) ⊎ Found lookup (λ c. c.anchor_apple_generic))
identity_vouched_example = identity_vouched answers lookup refl

abbrev ecdsa : PublicKey → Text
ecdsa k = codes "ecdsa-sha2-nistp256"

listed_or_refused_example :
    (list ecdsa world ≡ ok (agent_keys ecdsa world (key ∷ [])))
    × (((shows ecdsa world request.key_blob (agent_keys ecdsa world (key ∷ [])) ≡ false)
          × (sign_for codec world request agent ≡ (err no_matching_key, agent, [])))
        ⊎ ((shows ecdsa world request.key_blob (agent_keys ecdsa world (key ∷ [])) ≡ true)
            × (k : Key) × (matched world request ≡ some k)
            × (world.blob k.public_key ≡ some request.key_blob)))
listed_or_refused_example = listed_or_refused ecdsa world request codec agent (key ∷ []) refl
