-- ===== src/Workflow/Report.antt =====
-- The evidence that the kernel inspects: `CheckStatus`, `CheckResult`, `VerificationReport` and
-- `SourceIntegrationResult` of domain/models.py, with the fields that a gate or a validator reads.
use job_slayer.Base.{
  String, Bool, true, false, not, ◌&&◌, List, Option, arith, any, all, is_empty, if◌then◌else◌, ◌≡◌,
  Result, ok, require, ◌>>◌,
}

pub data CheckStatus : Type 0 where
  passed failed error skipped : CheckStatus

pub record CheckResult : Type 0 where
  pub check_id : String
  pub status : CheckStatus
  pub required : Bool

pub record VerificationReport : Type 0 where
  pub report_id : String
  pub task_id : String
  pub source_patch_sha256 : Option String
  pub checks : List CheckResult
  pub required_checks_passed : Bool
  pub regressions_detected : Bool
  pub unresolved_risks : List String

abbrev pub is_passed : CheckStatus → Bool
is_passed passed = true
is_passed _ = false

-- `check.status is PASSED`, for the checks that are required.
abbrev pub check_holds : CheckResult → Bool
check_holds c = if c.required then is_passed c.status else true

pub data ReportError : Type 0 where
  no_required_check claim_mismatch : ReportError

abbrev same_bool : Bool → Bool → Bool
same_bool true b = b
same_bool false b = not b

-- The validator `validate_required_check_claim`, which runs when a report is constructed or read.
unfoldable pub validate_report : VerificationReport → Result ReportError VerificationReport
validate_report r = do
  require (any (λ c. c.required) r.checks) no_required_check
  require (same_bool r.required_checks_passed (all check_holds r.checks)) claim_mismatch
  ok r

unfoldable pub passes_gate : VerificationReport → Bool
passes_gate r =
    r.required_checks_passed && not r.regressions_detected && is_empty r.unresolved_risks

pub record SourceIntegrationResult : Type 0 where
  pub integration_id : String
  pub task_id : String
  pub base_commit : String
  pub commit : String
  pub target_previous_commit : String
  pub target_commit : String
  pub source_patch_sha256 : String
  pub approved_by : String

-- A validated report passes the gate only with every required check passed.
pub passes_gate-checks :
    (r : VerificationReport)
    → validate_report r ≡ ok r
    → passes_gate r ≡ true
    → all check_holds r.checks ≡ true
unfolding validate_report passes_gate
passes_gate-checks r v g = ground arith
