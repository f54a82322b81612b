-- ===== src/Config/Preferences.antt =====
-- `cfPrefString`, `cfPrefBool` and `cfPrefInt` of managed_darwin.go on the value that CoreFoundation has
-- for a key, and the keys that `applyManagedOverrides` reads.
use touchid_agent.Prelude.{ℤ, Bool, Option, none, some}
use touchid_agent.Text.{Text, codes}
use touchid_agent.Config.{Managed}

-- A value of a preference. A string may not be one of UTF-8, and a number not one of a C `long`.
pub data CfValue : Type 0 where
  cf_string : Option Text → CfValue
  cf_boolean : Bool → CfValue
  cf_number : Option ℤ → CfValue
  cf_other : CfValue

unfoldable pub cf_pref_string : Option CfValue → Option Text
cf_pref_string (some (cf_string s)) = s
cf_pref_string _ = none

unfoldable pub cf_pref_bool : Option CfValue → Option Bool
cf_pref_bool (some (cf_boolean b)) = some b
cf_pref_bool _ = none

unfoldable pub cf_pref_int : Option CfValue → Option ℤ
cf_pref_int (some (cf_number n)) = n
cf_pref_int _ = none

-- What the preferences say, key by key.
unfoldable pub read_managed : (Text → Option CfValue) → Managed
read_managed prefs = record {
  managed_audit_log_path = cf_pref_string (prefs (codes "audit_log_path"));
  managed_peer_check = cf_pref_bool (prefs (codes "peer_check"));
  managed_rate_limit = cf_pref_int (prefs (codes "rate_limit"));
  managed_allowed_callers = cf_pref_string (prefs (codes "allowed_callers"));
  managed_require_hardened = cf_pref_bool (prefs (codes "require_hardened_callers"));
}
