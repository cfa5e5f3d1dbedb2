-- ===== src/Metering/Entitlements.antt =====
-- src/services/usageEntitlements.ts and src/migrations/041_usage_entitlement_control.sql.
use poolstatis.Common.{
  ℕ, ◌+◌, max, Bool, true, false, not, ◌&&◌, Option, none, some, String, List, [], ◌∷◌, ◌++◌, get,
  set, str_eq, ◌==◌, ltb, leb, if◌then◌else◌,
}
use poolstatis.Metering.Table.{
  Entitlement, Revision, Warning, Tables, revision_conflict, cap_below_usage, Answer, threw, done,
  used, hard_limit_of, thresholds_of, record_warnings,
}

-- `UsageEntitlementUpdate`, as the schema lets it through.
pub record Update : Type 0 where
  pub expected_revision : ℕ
  pub hard_limit : Option ℕ
  pub warning_thresholds : List ℕ
  pub reason : String

-- `ORDER BY revision DESC LIMIT 1`
unfoldable pub latest_revision : String → List Revision → ℕ
latest_revision org [] = 0
latest_revision org (r ∷ rs) =
    let rest = latest_revision org rs in if str_eq r.org_id org then max r.revision rest else rest

unfoldable pub configured_revision : Option Entitlement → ℕ
configured_revision none = 0
configured_revision (some e) = e.configuration_revision

-- `revision` of `readSnapshot`
unfoldable pub snapshot_revision : String → Tables → ℕ
unfolding latest_revision configured_revision
snapshot_revision org t =
    max (configured_revision (get t.entitlements org)) (latest_revision org t.revisions)

unfoldable pub same_option : Option ℕ → Option ℕ → Bool
same_option none none = true
same_option (some a) (some b) = a == b
same_option _ _ = false

unfoldable pub same_list : List ℕ → List ℕ → Bool
same_list [] [] = true
same_list (a ∷ xs) (b ∷ ys) = let rest = same_list xs ys in a == b && rest
same_list _ _ = false

unfoldable pub is_unchanged : String → Update → Tables → Bool
unfolding same_option same_list
is_unchanged org u t =
    same_option (hard_limit_of (get t.entitlements org)) u.hard_limit
    && same_list (thresholds_of (get t.entitlements org)) u.warning_thresholds

-- The trigger `poolstatis_advance_usage_entitlement_revision`, for a change.
unfoldable pub advanced : String → Tables → Option Entitlement → ℕ
unfolding latest_revision
advanced org t none = latest_revision org t.revisions + 1
advanced org t (some e) = e.configuration_revision + 1

unfoldable pub reached : String → ℕ → ℕ → List ℕ → List Warning
reached org period usage [] = []
reached org period usage (threshold ∷ ts) =
    let rest = reached org period usage ts in
    if leb threshold usage
    then record { org_id = org; period = period; threshold = threshold; quantity = usage } ∷ rest
    else rest

unfoldable pub new_revision : String → Update → String → ℕ → Tables → Revision
unfolding snapshot_revision
new_revision org u actor usage t = record {
  org_id = org;
  revision = snapshot_revision org t + 1;
  actor = actor;
  reason = u.reason;
  previous_hard_limit = hard_limit_of (get t.entitlements org);
  hard_limit = u.hard_limit;
  previous_warning_thresholds = thresholds_of (get t.entitlements org);
  warning_thresholds = u.warning_thresholds;
  current_usage = usage;
}

unfoldable pub write_entitlement : String → ℕ → Update → String → Tables → Tables
unfolding advanced reached new_revision record_warnings
write_entitlement org period u actor t =
    let usage = used org period t.counters in
    record t {
      entitlements = set t.entitlements org (record {
        hard_limit = u.hard_limit;
        warning_thresholds = u.warning_thresholds;
        configuration_revision = advanced org t (get t.entitlements org);
      });
      revisions = t.revisions ++ new_revision org u actor usage t ∷ [];
      warnings = record_warnings t.warnings (reached org period usage u.warning_thresholds);
    }

unfoldable pub is_below : Option ℕ → ℕ → Bool
is_below none usage = false
is_below (some cap) usage = ltb cap usage

-- `configureUsageEntitlement`, for an update that the schema lets through: whether it changed anything.
unfoldable pub configure : String → ℕ → Update → String → Tables → Answer Bool
unfolding snapshot_revision is_below is_unchanged write_entitlement
configure org period u actor t =
    if not (snapshot_revision org t == u.expected_revision)
    then threw revision_conflict
    else if is_below u.hard_limit (used org period t.counters)
    then threw cap_below_usage
    else if is_unchanged org u t
    then done t false
    else done (write_entitlement org period u actor t) true
