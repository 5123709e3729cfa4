-- ===== src/Inspection/Report.antt =====
-- The evidence of a report and its status (runner/runner/inspection.py, `_expected_report_status`,
-- `_normalize_report_status`, `_mark_command_budget_limited`, `_unknown_fallback_report` and the first
-- half of `_validate_report_semantics`). A report has passed the JSON Schema; its summary is a list of
-- code points; whether a recommendation has a repair command is a parameter.
pub mod Judged
use aiops_runner.Prelude.{
  ℕ, ◌-◌, String, Bool, true, false, not, ◌&&◌, ◌||◌, Option, none, some, List, [], ◌∷◌, ◌++◌, all,
  any, one_of, codes, length, take, if◌then◌else◌, Result, ok, err, ◌>>=◌, require, refuse, ◌==◌,
}

pub data ReportStatus : Type 0 where
  healthy warning critical unknown : ReportStatus

pub data CheckStatus : Type 0 where
  pass warn fail unverified : CheckStatus

-- `CRITICAL` and `WARNING`, the severities the schema admits.
pub data Severity : Type 0 where
  severe mild : Severity

pub record Check : Type 0 where
  pub category : String
  pub status : CheckStatus

pub record Finding : Type 0 where
  pub severity : Severity
  pub recommendation : String

pub record Report : Type 0 where
  pub overall_status : ReportStatus
  pub summary : List ℕ
  pub checks : List Check
  pub findings : List Finding

pub data ReportCode : Type 0 where
  baseline_incomplete finding_order_invalid status_inconsistent repair_command_forbidden :
      ReportCode

-- `_BASELINE_CATEGORY_ORDER`
abbrev pub baseline_categories : List String
baseline_categories =
    "cpu" ∷ "memory" ∷ "disk" ∷ "inode" ∷ "service" ∷ "network" ∷ "process" ∷ "container" ∷ []

unfoldable pub is_severe : Severity → Bool
is_severe severe = true
is_severe mild = false

unfoldable pub is_problem : CheckStatus → Bool
is_problem warn = true
is_problem fail = true
is_problem _ = false

unfoldable pub is_unverified : CheckStatus → Bool
is_unverified unverified = true
is_unverified _ = false

unfoldable pub has_some : List Finding → Bool
has_some [] = false
has_some (_ ∷ _) = true

-- `_expected_report_status`
unfoldable pub expected_report_status : List Check → List Finding → ReportStatus
expected_report_status checks findings =
    if any (λ f. is_severe f.severity) findings
    then critical
    else if has_some findings || any (λ c. is_problem c.status) checks
    then warning
    else if any (λ c. is_unverified c.status) checks
    then unknown
    else healthy

-- `_normalize_report_status`
unfoldable pub normalize_report_status : Report → Report
normalize_report_status r = record r { overall_status = expected_report_status r.checks r.findings }

unfoldable pub begins_with : List ℕ → List ℕ → Bool
begins_with [] t = true
begins_with (p ∷ ps) [] = false
begins_with (p ∷ ps) (c ∷ cs) = p == c && begins_with ps cs

-- `_mark_command_budget_limited`, with its prefix.
unfoldable pub mark_command_budget_limited : List ℕ → Report → Report
mark_command_budget_limited prefix r =
    if begins_with prefix r.summary
    then r
    else record r { summary = prefix ++ take (600 - length prefix) r.summary }

unfoldable pub unverified_checks : List String → List Check
unverified_checks [] = []
unverified_checks (c ∷ rest) = record { category = c; status = unverified } ∷ unverified_checks rest

-- `_unknown_fallback_report`, with its summary.
unfoldable pub unknown_fallback_report : List ℕ → Report
unknown_fallback_report summary = record {
  overall_status = unknown;
  summary = summary;
  checks = unverified_checks baseline_categories;
  findings = [];
}

unfoldable pub categories : List Check → List String
categories [] = []
categories (c ∷ rest) = c.category ∷ categories rest

unfoldable pub all_distinct : List String → Bool
all_distinct [] = true
all_distinct (c ∷ rest) = not (one_of c rest) && all_distinct rest

-- Every baseline category exactly once, and no other.
unfoldable pub is_complete : List String → Bool
is_complete cs =
    all_distinct cs
    && all (λ c. one_of c baseline_categories) cs
    && all (λ c. one_of c cs) baseline_categories

unfoldable pub severities : List Finding → List Severity
severities [] = []
severities (f ∷ rest) = f.severity ∷ severities rest

-- `sorted(…, key=…)`: the severe ones first.
unfoldable pub insert_severity : Severity → List Severity → List Severity
insert_severity s [] = s ∷ []
insert_severity severe (t ∷ ts) = severe ∷ t ∷ ts
insert_severity mild (severe ∷ ts) = severe ∷ insert_severity mild ts
insert_severity mild (mild ∷ ts) = mild ∷ mild ∷ ts

unfoldable pub sort_severities : List Severity → List Severity
sort_severities [] = []
sort_severities (s ∷ rest) = insert_severity s (sort_severities rest)

unfoldable pub same_severities : List Severity → List Severity → Bool
same_severities [] [] = true
same_severities [] (_ ∷ _) = false
same_severities (_ ∷ _) [] = false
same_severities (severe ∷ xs) (severe ∷ ys) = same_severities xs ys
same_severities (severe ∷ xs) (mild ∷ ys) = false
same_severities (mild ∷ xs) (severe ∷ ys) = false
same_severities (mild ∷ xs) (mild ∷ ys) = same_severities xs ys

unfoldable pub same_status : ReportStatus → ReportStatus → Bool
same_status healthy healthy = true
same_status warning warning = true
same_status critical critical = true
same_status unknown unknown = true
same_status _ _ = false

-- `_validate_report_semantics` up to its service inventory.
unfoldable pub validate_report_evidence : (String → Bool) → Report → Result ReportCode (Unit {0})
validate_report_evidence has_repair_command r =
    require (is_complete (categories r.checks)) baseline_incomplete >>= λ _.
    require (same_severities (severities r.findings) (sort_severities (severities r.findings)))
      finding_order_invalid
    >>= λ _.
        require (same_status r.overall_status (expected_report_status r.checks r.findings))
          status_inconsistent
        >>= λ _.
            refuse (any (λ f. has_repair_command f.recommendation) r.findings)
              repair_command_forbidden
