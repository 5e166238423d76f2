-- ===== src/Assessment/Blockers.antt =====
-- internal/assessment/engine.go: an assessment and the findings that it is made of.
use Prim.Native.String.{[], ◌∷◌}
use Prim.Native.Char.{Char, code}
use Prim.Native.String.append
use k8s_migration.Base.{
  ℕ, String, Bool, true, false, ◌||◌, ◌==◌, List, [], ◌∷◌, ◌≡◌, refl, sym, ap, ◌∙◌, arith, ltb,
  str_eq, ◌+++◌, any, if◌then◌else◌, Bool-cases, inl, inr, ◌⊎◌, join, eq_iff,
}
use k8s_migration.Assessment.Model.{Severity, Assessment}
use k8s_migration.Assessment.Engine.{
  Context, Finding, Rule, finding_key, severity_text, count_severity, add_finding, add_findings,
  findings_of, assess,
}
use k8s_migration.Assessment.Score.{is_blocker}

-- The key of a blocker, and of no other finding, begins with the letter B.
abbrev names_blocker : String → Bool
names_blocker String.[] = false
names_blocker (String.◌∷◌ c s) = code c == 0x42

names_blocker-append :
    (c : Char) (s rest : String) → names_blocker (String.◌∷◌ c s +++ rest) ≡ (code c == 0x42)
names_blocker-append c s rest = ap names_blocker (append.cons c s rest)

names_blocker-text :
    (severity : Severity) (rest : String)
    → names_blocker (severity_text severity +++ rest) ≡ is_blocker severity
names_blocker-text Severity.blocker rest = names_blocker-append "B" "LOCKER" rest
names_blocker-text Severity.warning rest = names_blocker-append "W" "ARNING" rest
names_blocker-text Severity.info rest = names_blocker-append "I" "NFO" rest

names_blocker-key : (f : Finding) → names_blocker (finding_key f) ≡ is_blocker f.severity
unfolding finding_key join
names_blocker-key f = names_blocker-text f.severity _

-- A finding that is passed over is a blocker only where a blocker has been counted.
seen-blocker :
    (key : String) (seen : List String)
    → any (λ k. str_eq k key) seen ≡ true
    → names_blocker key ≡ true
    → any names_blocker seen ≡ true
seen-blocker key [] h b = absurd (ground arith)
seen-blocker key (k ∷ seen) h b = elim (Bool-cases (str_eq k key)) [
  | inl e ↦ rw ((eq_iff k key).0 e, b) refl
  | inr e ↦
      let rest = seen-blocker key seen (rw e at h) b in
      elim (Bool-cases (names_blocker k)) [ inl t ↦ rw t refl | inr t ↦ rw t rest ]
]

count_severity-blockers :
    (severity : Severity) (a : Assessment)
    → ltb 0 (count_severity severity a).blocker_count
      ≡ (is_blocker severity || ltb 0 a.blocker_count)
unfolding count_severity
count_severity-blockers Severity.blocker a = ground arith
count_severity-blockers Severity.warning a = refl
count_severity-blockers Severity.info a = refl

abbrev blocks : Finding → Bool
blocks f = is_blocker f.severity

or_true : (a b : Bool) → b ≡ true → (a || b) ≡ true
or_true true b h = refl
or_true false b h = h

or_false : (a : Bool) → (a || false) ≡ a
or_false true = refl
or_false false = refl

or_swap : (a b c : Bool) → (a || (b || c)) ≡ ((if b then true else a) || c)
or_swap a b c = ground arith

either_true : (a b : Bool) → (if a then true else b) ≡ true → (a ≡ true) ⊎ (b ≡ true)
either_true true b h = inl refl
either_true false b h = inr h

either_or : (a b : Bool) → (a ≡ true) ⊎ (b ≡ true) → (a || b) ≡ true
either_or a b (inl h) = rw h refl
either_or a b (inr h) = or_true a b h

-- The findings whose keys are among the ones seen have been counted.
abbrev Counted : List String → Assessment → Type 0
Counted seen a = any names_blocker seen ≡ true → ltb 0 a.blocker_count ≡ true

Counted-add :
    (uuid_sha1 : ℕ → String → ℕ) (f : Finding) (seen : List String) (a : Assessment)
    → Counted seen a
    → Counted (finding_key f ∷ seen) (add_finding uuid_sha1 f a)
unfolding add_finding
Counted-add uuid_sha1 f seen a counted h =
    count_severity-blockers f.severity _
    ∙ elim (either_true (names_blocker (finding_key f)) (any names_blocker seen) h) [
      | inl t ↦
          either_or (is_blocker f.severity) (ltb 0 a.blocker_count)
            (inl (sym (names_blocker-key f) ∙ t))
      | inr t ↦ either_or (is_blocker f.severity) (ltb 0 a.blocker_count) (inr (counted t))
    ]

add_findings-blockers :
    (uuid_sha1 : ℕ → String → ℕ) (seen : List String) (fs : List Finding) (a : Assessment)
    → Counted seen a
    → ltb 0 (add_findings uuid_sha1 seen fs a).blocker_count
      ≡ (any blocks fs || ltb 0 a.blocker_count)
unfolding add_findings add_finding
add_findings-blockers uuid_sha1 seen [] a counted = refl
add_findings-blockers uuid_sha1 seen (f ∷ fs) a counted =
    elim (Bool-cases (any (λ key. str_eq key (finding_key f)) seen)) [
      | inl e ↦
          let rest = add_findings-blockers uuid_sha1 seen fs a counted in
          rw e (elim (Bool-cases (is_blocker f.severity)) [
            | inl t ↦
                let before =
                  counted (seen-blocker (finding_key f) seen e (names_blocker-key f ∙ t)) in
                rw t (rest ∙ or_true (any blocks fs) (ltb 0 a.blocker_count) before)
            | inr t ↦ rw t rest
          ])
      | inr e ↦ rw e (
          add_findings-blockers uuid_sha1 (finding_key f ∷ seen) fs (add_finding uuid_sha1 f a)
            (Counted-add uuid_sha1 f seen a counted)
          ∙ ap (λ b. any blocks fs || b) (count_severity-blockers f.severity _)
          ∙ or_swap (any blocks fs) (is_blocker f.severity) (ltb 0 a.blocker_count))
    ]

-- An assessment counts a blocker exactly where a rule of the engine finds one, where the sort keeps what
-- there is of findings.
pub assess-blockers :
    (sort : List Finding → List Finding) (uuid_sha1 : ℕ → String → ℕ) (engine : List Rule)
    (id now : ℕ) (context : Context)
    → ((p : Finding → Bool) (fs : List Finding) → any p (sort fs) ≡ any p fs)
    → ltb 0 (assess sort uuid_sha1 engine id now context).blocker_count
      ≡ any (λ f. is_blocker f.severity) (findings_of engine context)
unfolding assess
assess-blockers sort uuid_sha1 engine id now context keep =
    add_findings-blockers uuid_sha1 [] (sort (findings_of engine context)) _
      (λ h. absurd (ground arith))
    ∙ (or_false _ ∙ keep blocks (findings_of engine context))
