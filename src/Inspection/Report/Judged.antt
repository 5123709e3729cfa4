-- ===== src/Inspection/Report/Judged.antt =====
-- What an accepted report says (runner/runner/inspection.py, `_validate_report_semantics`).
use aiops_runner.Prelude.{
  ℕ, String, Bool, true, false, ◌&&◌, List, [], ◌∷◌, ◌≡◌, ◌≢◌, ◌⊎◌, ◌∙◌, ◌||◌, suc, inl, inr, refl,
  sym, subst, ap, any, all, All, one_of, count, str_eq, eq_iff, if◌then◌else◌, Bool-cases, ok,
  require, bind-eq-ok, require-eq-ok, refuse-eq-ok, arith,
}
use aiops_runner.Inspection.Report.{
  ReportStatus, healthy, warning, critical, unknown, Check, Finding, pass, unverified, is_severe,
  is_problem, is_unverified, has_some, baseline_categories, all_distinct, Severity, severe, mild,
  Report, expected_report_status, categories, is_complete, severities, insert_severity,
  sort_severities, same_severities, same_status, validate_report_evidence, baseline_incomplete,
  finding_order_invalid, status_inconsistent,
}

unfoldable AllMild : List Severity → Type 0
AllMild [] = Unit
AllMild (s ∷ rest) = (s ≡ mild) × AllMild rest

-- No severe finding after a mild one.
unfoldable pub SevereFirst : List Severity → Type 0
unfolding AllMild
SevereFirst [] = Unit
SevereFirst (severe ∷ rest) = SevereFirst rest
SevereFirst (mild ∷ rest) = AllMild rest

same_status-eq : (s t : ReportStatus) → same_status s t ≡ true → s ≡ t
unfolding same_status
same_status-eq s t h = ground arith

same_severities-eq : (xs ys : List Severity) → same_severities xs ys ≡ true → xs ≡ ys
unfolding same_severities
same_severities-eq [] [] h = refl
same_severities-eq [] (y ∷ ys) h = ground arith
same_severities-eq (x ∷ xs) [] h = ground arith
same_severities-eq (severe ∷ xs) (severe ∷ ys) h =
    ap (λ zs. severe ∷ zs) (same_severities-eq xs ys h)
same_severities-eq (severe ∷ xs) (mild ∷ ys) h = ground arith
same_severities-eq (mild ∷ xs) (severe ∷ ys) h = ground arith
same_severities-eq (mild ∷ xs) (mild ∷ ys) h = ap (λ zs. mild ∷ zs) (same_severities-eq xs ys h)

insert_severity-SevereFirst :
    (s : Severity) (xs : List Severity) → SevereFirst xs → SevereFirst (insert_severity s xs)
unfolding SevereFirst AllMild insert_severity
insert_severity-SevereFirst severe [] h = tt
insert_severity-SevereFirst mild [] h = tt
insert_severity-SevereFirst severe (x ∷ xs) h = h
insert_severity-SevereFirst mild (severe ∷ xs) h = insert_severity-SevereFirst mild xs h
insert_severity-SevereFirst mild (mild ∷ xs) h = (refl, h)

sort_severities-SevereFirst : (xs : List Severity) → SevereFirst (sort_severities xs)
unfolding SevereFirst sort_severities
sort_severities-SevereFirst [] = tt
sort_severities-SevereFirst (x ∷ xs) =
    insert_severity-SevereFirst x (sort_severities xs) (sort_severities-SevereFirst xs)

-- How often a category is checked.
abbrev pub times : String → List String → ℕ
times c cs = count (λ d. str_eq c d) cs

times-absent : (c : String) (cs : List String) → one_of c cs ≡ false → times c cs ≡ 0
times-absent c [] h = refl
times-absent c (d ∷ rest) h = elim (Bool-cases (str_eq c d)) [
  | inl this ↦ let bad = rw this at h in cc
  | inr other ↦ rw (other) (times-absent c rest (rw other at h))
]

times-once :
    (c : String) (cs : List String) → all_distinct cs ≡ true → one_of c cs ≡ true → times c cs ≡ 1
unfolding all_distinct
times-once c [] h k = cc
times-once c (d ∷ rest) h k = elim (Bool-cases (str_eq c d)) [
  | inl this ↦
      let absent : one_of d rest ≡ false = ground (arith, h) in
      rw (this) (
        ap suc (
          times-absent c rest
            (subst (λ x. one_of x rest ≡ false) (sym ((eq_iff c d).0 this)) absent)))
  | inr other ↦ rw (other) (times-once c rest (ground (arith, h)) (rw other at k))
]

all-member :
    (p : String → Bool) (c : String) (cs : List String)
    → all p cs ≡ true
    → one_of c cs ≡ true
    → p c ≡ true
all-member p c [] h k = cc
all-member p c (d ∷ rest) h k = elim (Bool-cases (str_eq c d)) [
  | inl this ↦ subst (λ x. p x ≡ true) (sym ((eq_iff c d).0 this)) (ground (arith, h))
  | inr other ↦ all-member p c rest (ground (arith, h)) (rw other at k)
]

true≢false : true ≢ false
true≢false e = cc

both_true : (a b c : Bool) → (a && b && c) ≡ true → (a ≡ true) × (b ≡ true) × (c ≡ true)
both_true a b c h = (ground (arith, h), ground (arith, h), ground (arith, h))

is_complete_parts :
    (cs : List String)
    → is_complete cs ≡ true
    → (all_distinct cs ≡ true)
      × (all (λ x. one_of x baseline_categories) cs ≡ true)
      × (all (λ x. one_of x cs) baseline_categories ≡ true)
unfolding is_complete
is_complete_parts cs h =
    both_true (all_distinct cs) (all (λ x. one_of x baseline_categories) cs)
      (all (λ x. one_of x cs) baseline_categories) h

times-covered :
    (base cs : List String) (c : String)
    → all_distinct cs ≡ true
    → all (λ x. one_of x base) cs ≡ true
    → all (λ x. one_of x cs) base ≡ true
    → times c cs ≡ (if one_of c base then 1 else 0)
times-covered base cs c distinct within covers = elim (Bool-cases (one_of c base)) [
  | inl base_one ↦
      rw (base_one)
        (times-once c cs distinct (all-member (λ x. one_of x cs) c base covers base_one))
  | inr other ↦ rw (other) (times-absent c cs (outside (one_of c cs) refl other))
]
  where
    outside : (b : Bool) → one_of c cs ≡ b → one_of c base ≡ false → one_of c cs ≡ false
    outside true e none_such =
        absurd (true≢false (sym (all-member (λ x. one_of x base) c cs within e) ∙ none_such))
    outside false e none_such = e

is_complete-times :
    (cs : List String) (c : String)
    → is_complete cs ≡ true
    → times c cs ≡ (if one_of c baseline_categories then 1 else 0)
is_complete-times cs c h =
    let (distinct, within, covers) = is_complete_parts cs h in
    times-covered baseline_categories cs c distinct within covers

abbrev pub AllPass : List Check → Type 0
AllPass = All (λ c. c.status ≡ pass)

abbrev pub NoneProblem : List Check → Type 0
NoneProblem = All (λ c. (c.status ≡ pass) ⊎ (c.status ≡ unverified))

-- What a status says of the checks and findings.
abbrev pub IsStatusOf : ReportStatus → List Check → List Finding → Type 0
IsStatusOf healthy checks findings = (findings ≡ []) × AllPass checks
IsStatusOf unknown checks findings = (findings ≡ []) × NoneProblem checks × ¬ (AllPass checks)
IsStatusOf warning checks findings =
    All (λ f. f.severity ≡ mild) findings × ¬ ((findings ≡ []) × NoneProblem checks)
IsStatusOf critical checks findings = ¬ (All (λ f. f.severity ≡ mild) findings)

mild-All :
    (findings : List Finding)
    → any (λ f. is_severe f.severity) findings ≡ false
    → All (λ f. f.severity ≡ mild) findings
unfolding is_severe
mild-All [] h = tt
mild-All (f ∷ rest) h = (ground arith, mild-All rest (ground arith))

severe_some :
    (findings : List Finding)
    → any (λ f. is_severe f.severity) findings ≡ true
    → ¬ (All (λ f. f.severity ≡ mild) findings)
unfolding is_severe
severe_some [] h k = cc
severe_some (f ∷ rest) h k = severe_some rest (ground (arith, k.0)) k.1

problems_none :
    (checks : List Check) → any (λ c. is_problem c.status) checks ≡ false → NoneProblem checks
unfolding is_problem
problems_none [] h = tt
problems_none (c ∷ rest) h = (ground arith, problems_none rest (ground arith))

problems_some :
    (checks : List Check) → any (λ c. is_problem c.status) checks ≡ true → ¬ (NoneProblem checks)
unfolding is_problem
problems_some [] h k = cc
problems_some (c ∷ rest) h k = problems_some rest (ground (arith, k.0)) k.1

pass_all :
    (checks : List Check)
    → NoneProblem checks
    → any (λ c. is_unverified c.status) checks ≡ false
    → AllPass checks
unfolding is_unverified
pass_all [] n h = tt
pass_all (c ∷ rest) n h = (ground (arith, n.0), pass_all rest n.1 (ground arith))

unverified_some :
    (checks : List Check) → any (λ c. is_unverified c.status) checks ≡ true → ¬ (AllPass checks)
unfolding is_unverified
unverified_some [] h k = cc
unverified_some (c ∷ rest) h k = unverified_some rest (ground (arith, k.0)) k.1

quiet-IsStatusOf :
    (checks : List Check)
    → NoneProblem checks
    → IsStatusOf (if any (λ c. is_unverified c.status) checks then unknown else healthy) checks []
quiet-IsStatusOf checks none_bad = elim (Bool-cases (any (λ c. is_unverified c.status) checks)) [
  | inl some_open ↦ rw (some_open) (refl, none_bad, unverified_some checks some_open)
  | inr all_closed ↦ rw (all_closed) (refl, pass_all checks none_bad all_closed)
]

mild-IsStatusOf :
    (checks : List Check) (findings : List Finding)
    → any (λ f. is_severe f.severity) findings ≡ false
    → IsStatusOf
        (if has_some findings || any (λ c. is_problem c.status) checks
          then warning
          else if any (λ c. is_unverified c.status) checks
          then unknown
          else healthy)
        checks
        findings
unfolding has_some
mild-IsStatusOf checks (f ∷ rest) h = (mild-All (f ∷ rest) h, λ k. nonempty k.0)
  where
    nonempty : f ∷ rest ≢ []
    nonempty e = cc
mild-IsStatusOf checks [] h = elim (Bool-cases (any (λ c. is_problem c.status) checks)) [
  | inl bad ↦ rw (bad) (tt, λ k. problems_some checks bad k.1)
  | inr good ↦ rw (good) (quiet-IsStatusOf checks (problems_none checks good))
]

expected_report_status-IsStatusOf :
    (checks : List Check) (findings : List Finding)
    → IsStatusOf (expected_report_status checks findings) checks findings
unfolding expected_report_status
expected_report_status-IsStatusOf checks findings =
    elim (Bool-cases (any (λ f. is_severe f.severity) findings)) [
      | inl bad ↦ rw (bad) (severe_some findings bad)
      | inr tame ↦ rw (tame) (mild-IsStatusOf checks findings tame)
    ]

no_repair :
    (has_repair_command : String → Bool) (findings : List Finding)
    → any (λ f. has_repair_command f.recommendation) findings ≡ false
    → All (λ f. has_repair_command f.recommendation ≡ false) findings
no_repair has_repair_command [] h = tt
no_repair has_repair_command (f ∷ rest) h =
    (ground arith, no_repair has_repair_command rest (ground arith))

-- A report that is accepted has every baseline category exactly once and no other, and no severe finding
-- after a mild one. Its status is CRITICAL where some finding is severe; WARNING where none is and
-- there is a finding, or a check that is neither PASS nor UNKNOWN; UNKNOWN where there is no finding
-- and every check is PASS or UNKNOWN, not all of them PASS; and HEALTHY where there is no finding and
-- every check is PASS. No recommendation has a repair command.
pub validate_report_evidence-IsSound :
    (has_repair_command : String → Bool) (r : Report) (u : Unit {0})
    → validate_report_evidence has_repair_command r ≡ ok u
    → ((c : String)
        → times c (categories r.checks) ≡ (if one_of c baseline_categories then 1 else 0))
      × SevereFirst (severities r.findings)
      × IsStatusOf r.overall_status r.checks r.findings
      × All (λ f. has_repair_command f.recommendation ≡ false) r.findings
unfolding validate_report_evidence
validate_report_evidence-IsSound has_repair_command r u h =
    let (v1, whole, e1) =
      bind-eq-ok (require (is_complete (categories r.checks)) baseline_incomplete) _ h in
    let (v2, sorted, e2) =
      bind-eq-ok
        (require (same_severities (severities r.findings) (sort_severities (severities r.findings)))
          finding_order_invalid)
        _ e1 in
    let (v3, agrees, e3) =
      bind-eq-ok
        (require (same_status r.overall_status (expected_report_status r.checks r.findings))
          status_inconsistent)
        _ e2 in
    (
      (λ c. is_complete-times (categories r.checks) c (require-eq-ok _ _ whole)),
      subst SevereFirst (sym (same_severities-eq _ _ (require-eq-ok _ _ sorted)))
          (sort_severities-SevereFirst (severities r.findings)),
      subst (λ s. IsStatusOf s r.checks r.findings)
          (sym (same_status-eq _ _ (require-eq-ok _ _ agrees)))
          (expected_report_status-IsStatusOf r.checks r.findings),
      no_repair has_repair_command r.findings (refuse-eq-ok _ _ e3),
    )
