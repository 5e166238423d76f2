-- ===== src/Assessment/Score.antt =====
-- internal/assessment/engine.go: the counts and the score of an assessment.
use k8s_migration.Base.{
  ℕ, ◌+◌, ◌-◌, ◌*◌, String, Bool, true, false, List, [], ◌∷◌, ◌++◌, ◌≡◌, refl, arith, select,
  length, str_eq, any, if◌then◌else◌, Bool-cases, inl, inr, length-append,
}
use k8s_migration.Base.Tables.{select-append}
use k8s_migration.Assessment.Model.{Severity, Issue, Assessment}
use k8s_migration.Assessment.Engine.{
  Context, Finding, Rule, finding_key, issue_of, count_severity, add_finding, add_findings,
  findings_of, assess,
}

abbrev pub is_blocker : Severity → Bool
is_blocker Severity.blocker = true
is_blocker _ = false

abbrev pub is_warning : Severity → Bool
is_warning Severity.warning = true
is_warning _ = false

abbrev pub is_info : Severity → Bool
is_info Severity.info = true
is_info _ = false

abbrev pub count : (Severity → Bool) → List Issue → ℕ
count p issues = length (select (λ i. p i.severity) issues)

-- The counts are those of the issues, and the score is 100 without 30 for a blocker, 10 for a warning
-- and 2 for a hint, and 0 where these are more than 100.
pub record IsTallied (a : Assessment) : Type 0 where
  pub blockers : a.blocker_count ≡ count is_blocker a.issues
  pub warnings : a.warning_count ≡ count is_warning a.issues
  pub infos : a.info_count ≡ count is_info a.issues
  pub scored : a.score ≡ 100 - (30 * a.blocker_count + (10 * a.warning_count + 2 * a.info_count))

count-last :
    (p : Severity → Bool) (issues : List Issue) (i : Issue)
    → count p (issues ++ i ∷ []) ≡ count p issues + (if p i.severity then 1 else 0)
count-last p issues i =
    rw
      (
        select-append (λ j. p j.severity) issues (i ∷ []),
        length-append (select (λ j. p j.severity) issues) (select (λ j. p j.severity) (i ∷ [])),
      )
      (elim (Bool-cases (p i.severity)) [ inl e ↦ rw e refl | inr e ↦ rw e refl ])

count_severity-IsTallied :
    (severity : Severity) (i : Issue) (a : Assessment)
    → i.severity ≡ severity
    → IsTallied a
    → IsTallied (count_severity severity (record a { issues = a.issues ++ i ∷ [] }))
unfolding count_severity
count_severity-IsTallied Severity.blocker i a same t = record {
  blockers = rw (count-last is_blocker a.issues i, same) (omega (arith, t.blockers));
  warnings = rw (count-last is_warning a.issues i, same) (omega (arith, t.warnings));
  infos = rw (count-last is_info a.issues i, same) (omega (arith, t.infos));
  scored = omega (arith, t.scored);
}
count_severity-IsTallied Severity.warning i a same t = record {
  blockers = rw (count-last is_blocker a.issues i, same) (omega (arith, t.blockers));
  warnings = rw (count-last is_warning a.issues i, same) (omega (arith, t.warnings));
  infos = rw (count-last is_info a.issues i, same) (omega (arith, t.infos));
  scored = omega (arith, t.scored);
}
count_severity-IsTallied Severity.info i a same t = record {
  blockers = rw (count-last is_blocker a.issues i, same) (omega (arith, t.blockers));
  warnings = rw (count-last is_warning a.issues i, same) (omega (arith, t.warnings));
  infos = rw (count-last is_info a.issues i, same) (omega (arith, t.infos));
  scored = omega (arith, t.scored);
}

add_findings-IsTallied :
    (uuid_sha1 : ℕ → String → ℕ) (seen : List String) (fs : List Finding) (a : Assessment)
    → IsTallied a
    → IsTallied (add_findings uuid_sha1 seen fs a)
unfolding add_findings add_finding
add_findings-IsTallied uuid_sha1 seen [] a t = t
add_findings-IsTallied uuid_sha1 seen (f ∷ fs) a t =
    elim (Bool-cases (any (λ key. str_eq key (finding_key f)) seen)) [
      | inl e ↦ rw e (add_findings-IsTallied uuid_sha1 seen fs a t)
      | inr e ↦ rw e (
          add_findings-IsTallied uuid_sha1 (finding_key f ∷ seen) fs (add_finding uuid_sha1 f a)
            (count_severity-IsTallied f.severity (issue_of uuid_sha1 a.id f) a refl t))
    ]

-- The counts of an assessment are those of its issues, and its score is 100 without 30 for each
-- blocker, 10 for each warning and 2 for each hint, or 0 where these are more than 100.
pub assess-IsTallied :
    (sort : List Finding → List Finding) (uuid_sha1 : ℕ → String → ℕ) (engine : List Rule)
    (id now : ℕ) (context : Context)
    → IsTallied (assess sort uuid_sha1 engine id now context)
unfolding assess
assess-IsTallied sort uuid_sha1 engine id now context =
    add_findings-IsTallied uuid_sha1 [] (sort (findings_of engine context)) _
      (record { blockers = refl; warnings = refl; infos = refl; scored = omega arith })
