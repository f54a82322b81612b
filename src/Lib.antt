-- ===== src/Lib.antt =====
-- touchid-agent: an SSH agent whose keys live in the Secure Enclave, and sign behind Touch ID.
--
-- A request reaches the agent over a Unix socket. The agent asks the kernel who is on the other end
-- (peer_darwin.go, codesign_darwin.go), finds the key by its public key, lets the policy and the key's
-- own rules decide on the caller (policy.go), counts the request against the key's rate, has the
-- Secure Enclave sign (secureenclave_darwin.go), keeps watch over prompts that did not complete, and
-- writes one record of the outcome to a hash-chained log (audit.go). Keys are files of one directory
-- (keystore_fs.go). The files here and the code they model, by the paths of the repository:
--
--   Text, FilePath     the functions of the packages strings and path/filepath that the code calls
--   Peer               peer_darwin.go, and `CallerIdentity` of codesign_darwin.go;
--     Peer/Identity    `peerCodeIdentity` and `resolveCallerIdentity` of codesign_darwin.go
--   Policy             policy.go: `CallerRule.matches`, `CheckCaller`, `pathRules`;
--     Policy/Parse     `parseCallerRule`, `String`, `loadAllowedCallers`, `parseKeyCallers` of main.go;
--     Policy/Rate      `CheckRate` and `rateBucket.allow`
--   Audit              audit.go: `Sign`, `seedChain`, `readLastLine`, `VerifyAuditChain`
--   Key                secureenclave_darwin.go: `Sign`, `generateSEKey`, the encoding of points
--   Store              keystore_fs.go: `Generate`, `List`, `Delete`, `DeleteAll`, `loadKeyfile`;
--     Store/Label      `validateLabel` of main.go and the names of key files;
--     Store/Mapping    the directory as a map from labels to keys; Store/Opened `DefaultKeyStore`
--   Agent/Requests     agent.go: `signFor`, whole, with its effects as a trace;
--     Agent/Requests/Locks/Threads   requests served at once, as `serveConn` does
--     Agent/Requests/Log/Sessions    one log under agents that are started one after the other
--     Agent/Requests/Listing         `List`, `Signers`, and the requests that are refused
--   Agent/Stall        `noteBiometricOutcome`
--   Agent/Failure      `classifySignError` of main.go and `isBiometricNonCompletion`
--   Agent/Notice       `escapeForAppleScript` and `defaultNotify`
--   Plist              plist_darwin.go: `classify`, `readPlist`, `extractRunFlags`, `socketFromOldArgs`;
--     Plist/Render     `renderPlist` and `xmlEscape`;
--     Plist/Xml        property lists in XML, as plutil is relied on to read them;
--     Plist/Commands   `cmdInstallPlist`, `cmdMigratePlist`, `cmdEnsureUserPlist`
--     Plist/Atomic     `writePlistAtomically`, each call of it
--   Config             managed_darwin.go and the part of `cmdRun` of main.go that builds the agent
--   Process            the listener, the loop, the signals and the end of `cmdRun`, and launchd_darwin.go
--   Commands           main.go: what the commands change, print and need;
--     Commands/Keys    `cmdCreate`, `cmdList`, `cmdDelete`, `cmdDeleteAll`;
--     Commands/Audited, Status, Stale   `cmdVerifyAudit`, `cmdStatus`, `parseStaleLModeProcesses`;
--     Commands/Cli     `main` behind `flag.Parse`
--   Tests              runs on concrete values
--
-- Conventions. A text is its list of code points, a file its list of bytes. Functions with Go's pair
-- of a value and an error return a `Result`. State that the code mutates behind a pointer (the agent's
-- policy and counters, the logger's number and hash, the directory) is an argument and a part of the
-- result. Native numbers stand for Go's; `uint64` sequence numbers keep their wrap-around (`u64`), and
-- `int` limits and process numbers are signed (`ℤ`). Times are nanoseconds. All loops are structural,
-- so there is no fuel. The scanner's buffer of 1 MiB (`max_token`) and the tail of 64 KiB that a log is
-- reopened by (`tail_size`) are written out.
--
-- What is outside the repository is a parameter: JSON and SHA-256 (`Codec`, `Format`), the Secure
-- Enclave's library (`Enclave`), the file system's links and failures, the clock, and the SSH library's
-- encoding of keys and signer (`World`), and plutil (`System`). What is documented of these is stated
-- where it is used.
--
-- Requests that are served at once are the traces of single requests, interleaved as the locks allow; each
-- has its world and agent as arguments, so that nothing is assumed of how they affect one another. The
-- run of the process is a function of the list of its events, and events that cannot happen change nothing.
--
-- Not modelled: the Swift bridge and the C calls themselves, whose answers are arguments; `flag.Parse`;
-- the wording of messages and of errors; the protocol of the SSH agent, which a library speaks; the
-- idle timeout of a connection; and what a request that is being served does to a second one's state.
mod Prelude
pub mod Text
pub mod FilePath
pub mod Peer
pub mod Policy
pub mod Audit
pub mod Key
pub mod Store
pub mod Agent
pub mod Plist
pub mod Config
pub mod Process
pub mod Commands
mod Tests
