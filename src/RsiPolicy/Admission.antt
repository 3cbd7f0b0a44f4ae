-- ===== src/RsiPolicy/Admission.antt =====
-- The input checks of `RSIDecisionPolicy`: exactly the inputs that fit the accepted lineage pass.
use post_training_rsi_pipeli.Prelude.{
  true, false, Option, none, some, ok, ◌≡◌, ◌⊎◌, inl, inr, refl, arith,
}
use post_training_rsi_pipeli.Platform.{Platform}
use post_training_rsi_pipeli.ControlPlane.Enums.ControlState.{ControlState}
use post_training_rsi_pipeli.ControlPlane.Records.StateSnapshot.{StateSnapshot}
use post_training_rsi_pipeli.RsiPolicy.Inputs.{RsiPolicyLimits, CandidateObservation}
use post_training_rsi_pipeli.RsiPolicy.Step.{RsiPolicyStep}
use post_training_rsi_pipeli.ControlPlane.Text.{is_id}
use post_training_rsi_pipeli.Prelude.{String, ◌↔◌, >>=-eq-ok, eq_iff, opt_eq_iff}
use post_training_rsi_pipeli.RsiPolicy.Edges.{validate_input, is_evaluate, conflicts}
use post_training_rsi_pipeli.ControlPlane.Validation.{validate_id}
use post_training_rsi_pipeli.RsiPolicy.Evaluate.{evaluate}

module _ (P : Platform) (current : StateSnapshot P) (candidate : CandidateObservation P) where
  pub record Admissible : Type 0 where
    pub run_is_id : is_id current.run_id ≡ true
    pub in_evaluate : current.state ≡ ControlState.evaluate
    pub same_iteration : current.iteration ≡ candidate.iteration
    pub active_is_peak : current.active_checkpoint_id ≡ current.peak_checkpoint_id
    pub parent_is_active : candidate.parent_checkpoint_id ≡ current.active_checkpoint_id
    pub same_candidate :
        (current.candidate_checkpoint_id ≡ none)
        ⊎ (current.candidate_checkpoint_id ≡ some candidate.checkpoint_id)

  is_evaluate-eq : (state : ControlState) → is_evaluate state ≡ true → state ≡ ControlState.evaluate
  is_evaluate-eq ControlState.evaluate h = refl
  is_evaluate-eq _ h = cc

  no_conflict : (o : Option String) (s : String) → conflicts o s ≡ false → (o ≡ none) ⊎ (o ≡ some s)
  no_conflict none s h = inl refl
  no_conflict (some t) s h = inr (ground (arith, eq_iff t s))

  admitted-Admissible : {u : Unit {0}} → validate_input P current candidate ≡ ok u → Admissible
  unfolding validate_input validate_id
  admitted-Admissible h = record {
    run_is_id = ground arith;
    in_evaluate = is_evaluate-eq current.state (ground arith);
    same_iteration = ground arith;
    active_is_peak = (opt_eq_iff _ _).0 (ground arith);
    parent_is_active = (opt_eq_iff _ _).0 (ground arith);
    same_candidate =
        no_conflict current.candidate_checkpoint_id candidate.checkpoint_id (ground arith);
  }

  conflict_free :
      (o : Option String) (s : String) → (o ≡ none) ⊎ (o ≡ some s) → conflicts o s ≡ false
  conflict_free none s h = refl
  conflict_free (some t) s h = ground (arith, eq_iff t s)

  Admissible-admitted : Admissible → validate_input P current candidate ≡ ok tt
  unfolding validate_input validate_id
  Admissible-admitted a = ground (
    arith,
    a.run_is_id,
    a.in_evaluate,
    a.same_iteration,
    (opt_eq_iff _ _).1 a.active_is_peak,
    (opt_eq_iff _ _).1 a.parent_is_active,
    conflict_free current.candidate_checkpoint_id candidate.checkpoint_id a.same_candidate,
  )

  -- The checks let exactly the admissible inputs through: a snapshot in EVALUATE with a valid run id,
  -- of the candidate's iteration, whose active checkpoint is the Peak and the candidate's parent, and
  -- which has no candidate or this one.
  pub validate_input-Admissible : (validate_input P current candidate ≡ ok tt) ↔ Admissible
  validate_input-Admissible = (admitted-Admissible, Admissible-admitted)

  -- A call returns a step only for an admissible input.
  pub evaluate-Admissible :
      (limits : RsiPolicyLimits P) (step : RsiPolicyStep P)
      → evaluate P limits current candidate ≡ ok step
      → Admissible
  unfolding evaluate
  evaluate-Admissible limits step h =
      let (checked, hc, _) = >>=-eq-ok (validate_input P current candidate) _ h in
      admitted-Admissible hc
