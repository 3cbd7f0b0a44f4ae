-- ===== src/Harness/Outer/Climb.antt =====
-- The active harness of the outer loop is replaced only by a better one, along any run.
use post_training_rsi_pipeli.Prelude.{ℕ, String, Option, some, ◌≡◌, refl, true, arith, subst}
use post_training_rsi_pipeli.Platform.{Platform}
use post_training_rsi_pipeli.ControlPlane.Value.{Fields}
use post_training_rsi_pipeli.ControlPlane.Enums.ControlState.{ControlState}
use post_training_rsi_pipeli.ControlPlane.Records.StateSnapshot.{StateSnapshot}
use post_training_rsi_pipeli.Harness.Position.{Position}
use post_training_rsi_pipeli.Harness.Outer.Edges.{HarnessOuterLimits}
use post_training_rsi_pipeli.Harness.Outer.Policy.{improves}
use post_training_rsi_pipeli.Harness.Outer.Search.{
  Move, propose, pass, fail, ask, accept, reject, abort, approve, deny, hand_off, again,
}
use post_training_rsi_pipeli.Harness.Outer.Runs.{Run, Run-keeps}

module _ (P : Platform) (limits : HarnessOuterLimits P) where
  -- A harness with its score, reached from another by improvements above the minimum.
  pub data Climb (harness : Option String) (score : Option P.Float)
      : Option String → Option P.Float → Type 0 where
    same : Climb harness score harness score
    better :
        {h : Option String} {a b : P.Float} (next : Option String)
        → Climb harness score h (some a)
        → improves P limits a b ≡ true
        → Climb harness score next (some b)

  abbrev Waiting : Position P → Type 0
  Waiting t =
      (a : P.Float) × (b : P.Float) × (t.peak_score ≡ some a)
      × (t.candidate_score ≡ some b)
      × (improves P limits a b ≡ true)

  -- What the loop keeps: the climb so far, and that a candidate in review would continue it.
  pub record Climbing (harness : Option String) (score : Option P.Float) (t : Position P)
      : Type 0 where
    pub climb : Climb harness score t.active_harness_id t.peak_score
    pub review : t.state ≡ ControlState.harness_review_pending → Waiting t

  module _ (harness : Option String) (score : Option P.Float) where
    climb_on :
        (s : Position P) (a b : P.Float) (next : Option String)
        → Climb harness score s.active_harness_id s.peak_score
        → s.peak_score ≡ some a
        → improves P limits a b ≡ true
        → Climb harness score next (some b)
    climb_on s a b next c h i =
        better next (subst (λ x. Climb harness score s.active_harness_id x) h c) i

    Move-Climbing :
        (s t : Position P) → Move P limits s t → Climbing harness score s → Climbing harness score t
    Move-Climbing s t (propose c h d e) k =
        rw e (record { climb = k.climb; review = λ r. absurd (ground arith) })
    Move-Climbing s t (pass h e) k =
        rw e (record { climb = k.climb; review = λ r. absurd (ground arith) })
    Move-Climbing s t (fail h e) k =
        rw e (record { climb = k.climb; review = λ r. absurd (ground arith) })
    Move-Climbing s t (ask a b cost h p i r l e) k =
        rw e (record { climb = k.climb; review = λ _. (a, b, p, refl, i) })
    Move-Climbing s t (accept a b cost h p i r l e) k = rw e (record {
      climb = climb_on s a b s.candidate_harness_id k.climb p i;
      review = λ r. absurd (ground arith);
    })
    Move-Climbing s t (reject a b cost h p i l e) k =
        rw e (record { climb = k.climb; review = λ r. absurd (ground arith) })
    Move-Climbing s t (abort b cost stop h e) k =
        rw e (record { climb = k.climb; review = λ r. absurd (ground arith) })
    Move-Climbing s t (approve b h c e) k =
        let (a, b', p, q, i) = k.review h in
        let found : b' ≡ b = ground (arith, c, q) in
        rw e (record {
          climb = climb_on s a b s.candidate_harness_id k.climb p (rw found at i);
          review = λ r. absurd (ground arith);
        })
    Move-Climbing s t (deny h e) k =
        rw e (record { climb = k.climb; review = λ r. absurd (ground arith) })
    Move-Climbing s t (hand_off h d e) k =
        rw e (record { climb = k.climb; review = λ r. absurd (ground arith) })
    Move-Climbing s t (again h p i e) k =
        rw e (record { climb = k.climb; review = λ r. absurd (ground arith) })

  -- In any run of calls that return, from the start of an iteration, the active harness is the one
  -- from before or was reached from it by replacements, each of which scored above the one that it
  -- replaced by more than the minimum improvement, with a review or without.
  pub Run-Climb :
      (canonical_json : Fields P → String) (s t : StateSnapshot P) (n : ℕ)
      → s.state ≡ ControlState.mutate_harness
      → Run P canonical_json limits s n t
      → Climb s.active_harness_id s.peak_score t.active_harness_id t.peak_score
  Run-Climb canonical_json s t n h r =
      (Run-keeps P canonical_json limits (Climbing s.active_harness_id s.peak_score)
        (Move-Climbing s.active_harness_id s.peak_score) r
        (record { climb = same; review = λ e. absurd (ground arith) })).climb
