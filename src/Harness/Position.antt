-- ===== src/Harness/Position.antt =====
-- What the proofs about harness/ keep of a snapshot: where the controller stands, without the
-- identifier, the time, the evidence and the metadata of the record.
pub mod Walks
use post_training_rsi_pipeli.Prelude.{ℕ, String, Option, ok, ◌≡◌, ◌∙◌, ap, refl}
use post_training_rsi_pipeli.Platform.{Platform}
use post_training_rsi_pipeli.ControlPlane.Enums.ControlState.{ControlState}
use post_training_rsi_pipeli.ControlPlane.Enums.StopReason.{StopReason}
use post_training_rsi_pipeli.ControlPlane.Records.StateSnapshot.{StateSnapshot}
use post_training_rsi_pipeli.ControlPlane.Records.StateSnapshot.Kept as KeptSnapshot
use post_training_rsi_pipeli.Harness.Steps.{Edge, edge_snapshot}

pub record Position (P : Platform) : Type 0 where
  pub run_id : String
  pub cycle : ℕ
  pub iteration : ℕ
  pub state : ControlState
  pub active_checkpoint_id : Option String
  pub candidate_checkpoint_id : Option String
  pub peak_checkpoint_id : Option String
  pub active_harness_id : Option String
  pub candidate_harness_id : Option String
  pub candidate_score : Option P.Float
  pub peak_score : Option P.Float
  pub plateau_count : ℕ
  pub total_cost_usd : P.Float
  pub stop_reason : Option StopReason

module _ (P : Platform) where
  abbrev pub position : StateSnapshot P → Position P
  position s = record {
    run_id = s.run_id;
    cycle = s.cycle;
    iteration = s.iteration;
    state = s.state;
    active_checkpoint_id = s.active_checkpoint_id;
    candidate_checkpoint_id = s.candidate_checkpoint_id;
    peak_checkpoint_id = s.peak_checkpoint_id;
    active_harness_id = s.active_harness_id;
    candidate_harness_id = s.candidate_harness_id;
    candidate_score = s.candidate_score;
    peak_score = s.peak_score;
    plateau_count = s.plateau_count;
    total_cost_usd = s.total_cost_usd;
    stop_reason = s.stop_reason;
  }

  -- Normalising a snapshot does not change its position.
  pub Normalised-position :
      (d d' : StateSnapshot P) → KeptSnapshot.Normalised P d d' → position d' ≡ position d
  Normalised-position d d' n = ap position n.same
