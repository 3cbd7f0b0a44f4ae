-- ===== src/ControlPlane/Enums/EvidenceKind.antt =====
-- `EvidenceKind` of control_plane/enums.py: the kinds of evidence.
use post_training_rsi_pipeli.Prelude.{String, List, [], ◌∷◌, ◌≡◌, refl, Option, some}
use post_training_rsi_pipeli.ControlPlane.Enums.Lookup.{find_member}

pub data EvidenceKind : Type 0 where
  config diagnostic_report hypothesis synthesis_manifest raw_dataset : EvidenceKind
  verification_audit accepted_dataset quarantine_dataset approval_request : EvidenceKind
  approval_decision cost_ledger training_result checkpoint : EvidenceKind
  serving_endpoint serving_teardown evaluation_result failure_trace : EvidenceKind
  decision lineage_manifest peak_pointer harness_snapshot trace_dataset : EvidenceKind
  regression_audit : EvidenceKind

-- the member's text, `member.value`
unfoldable pub value : EvidenceKind → String
value config = "CONFIG"
value diagnostic_report = "DIAGNOSTIC_REPORT"
value hypothesis = "HYPOTHESIS"
value synthesis_manifest = "SYNTHESIS_MANIFEST"
value raw_dataset = "RAW_DATASET"
value verification_audit = "VERIFICATION_AUDIT"
value accepted_dataset = "ACCEPTED_DATASET"
value quarantine_dataset = "QUARANTINE_DATASET"
value approval_request = "APPROVAL_REQUEST"
value approval_decision = "APPROVAL_DECISION"
value cost_ledger = "COST_LEDGER"
value training_result = "TRAINING_RESULT"
value checkpoint = "CHECKPOINT"
value serving_endpoint = "SERVING_ENDPOINT"
value serving_teardown = "SERVING_TEARDOWN"
value evaluation_result = "EVALUATION_RESULT"
value failure_trace = "FAILURE_TRACE"
value decision = "DECISION"
value lineage_manifest = "LINEAGE_MANIFEST"
value peak_pointer = "PEAK_POINTER"
value harness_snapshot = "HARNESS_SNAPSHOT"
value trace_dataset = "TRACE_DATASET"
value regression_audit = "REGRESSION_AUDIT"

-- the members in declaration order
abbrev pub members : List EvidenceKind
members =
    config ∷ diagnostic_report ∷ hypothesis ∷ synthesis_manifest ∷ raw_dataset ∷ verification_audit
    ∷ accepted_dataset ∷ quarantine_dataset ∷ approval_request ∷ approval_decision ∷ cost_ledger
    ∷ training_result ∷ checkpoint ∷ serving_endpoint ∷ serving_teardown ∷ evaluation_result
    ∷ failure_trace ∷ decision ∷ lineage_manifest ∷ peak_pointer ∷ harness_snapshot ∷ trace_dataset
    ∷ regression_audit ∷ []

-- `EvidenceKind(text)`; `none` is its ValueError
unfoldable pub of_value : String → Option EvidenceKind
unfolding find_member value
of_value text = find_member value text members

-- The text of a member is read back as that member.
pub of_value-value : (m : EvidenceKind) → of_value (value m) ≡ some m
unfolding of_value
of_value-value config = refl
of_value-value _ = refl
