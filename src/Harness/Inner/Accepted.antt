-- ===== src/Harness/Inner/Accepted.antt =====
-- The accepted model under the inner loop: replaced only by a better candidate, along any run.
use post_training_rsi_pipeli.Prelude.{
  ℕ, suc, String, Option, some, ◌≡◌, refl, ◌∙◌, sym, ap, inl, inr, arith,
}
use post_training_rsi_pipeli.Platform.{Platform}
use post_training_rsi_pipeli.ControlPlane.Enums.ControlState.{ControlState}
use post_training_rsi_pipeli.ControlPlane.Records.StateSnapshot.{StateSnapshot}
use post_training_rsi_pipeli.Harness.Position.Walks.{Reach, here, next}
use post_training_rsi_pipeli.Harness.Inner.Edges.{ModelInnerLimits}
use post_training_rsi_pipeli.Harness.Inner.Promotion.{
  Step, Better, trained, abort, ask, promote, reject, approve, deny, commit, restore,
}
use post_training_rsi_pipeli.Harness.Inner.Runs.{Run, Run-keeps}

module _ (P : Platform) (limits : ModelInnerLimits P) (s : StateSnapshot P) where
  -- a snapshot that the run from `s` has passed
  abbrev Visited : StateSnapshot P → Type 0
  Visited y = (n : ℕ) × Reach (Step P limits) s n y

  -- The run has passed a snapshot with the candidate whose score for the accepted model `b` beats.
  abbrev Beats : Option String → P.Float → Type 0
  Beats c b =
      (y : StateSnapshot P) × Visited y × (y.candidate_checkpoint_id ≡ c) × Better P limits y b

  -- It has passed a decision to promote the candidate, evaluated at `b`.
  abbrev Decided : String → P.Float → Type 0
  Decided c b =
      (x : StateSnapshot P) × Visited x
      × (x.state ≡ ControlState.promote_model)
      × (x.candidate_checkpoint_id ≡ some c)
      × (x.candidate_score ≡ some b)

  -- a candidate that was decided on and beats the accepted model
  abbrev Committed : Option String → Type 0
  Committed active =
      (c : String) × (b : P.Float) × (active ≡ some c) × Decided c b × Beats (some c) b

  -- The accepted model after a run from `s`: in SLIM_HARNESS a committed candidate, in every other
  -- state the one of `s`.
  pub record Accepted (t : StateSnapshot P) : Type 0 where
    pub visited : Visited t
    pub active_is_peak : t.active_checkpoint_id ≡ t.peak_checkpoint_id
    pub kept :
        (t.state ≡ ControlState.slim_harness → ⊥) → t.active_checkpoint_id ≡ s.active_checkpoint_id
    pub committed : t.state ≡ ControlState.slim_harness → Committed t.active_checkpoint_id
    pub decided :
        t.state ≡ ControlState.promote_model
        → (b : P.Float) × (t.candidate_score ≡ some b) × Beats t.candidate_checkpoint_id b

  -- a move that keeps the model
  keeps :
      (x y : StateSnapshot P)
      → Step P limits x y
      → Accepted x
      → (x.state ≡ ControlState.slim_harness → ⊥)
      → (y.state ≡ ControlState.slim_harness → ⊥)
      → y.active_checkpoint_id ≡ x.active_checkpoint_id
      → y.peak_checkpoint_id ≡ x.peak_checkpoint_id
      → (y.state ≡ ControlState.promote_model
          → (b : P.Float) × (y.candidate_score ≡ some b) × Beats y.candidate_checkpoint_id b)
      → Accepted y
  keeps x y m i n o a p d = record {
    visited = (suc i.visited.0, next i.visited.1 m);
    active_is_peak = a ∙ i.active_is_peak ∙ sym p;
    kept = λ _. a ∙ i.kept n;
    committed = λ slim. absurd (o slim);
    decided = d;
  }

  -- the score and the candidate of a decision
  beaten :
      (x y : StateSnapshot P) (b : P.Float)
      → Accepted x
      → y.candidate_checkpoint_id ≡ x.candidate_checkpoint_id
      → y.candidate_score ≡ some b
      → Better P limits x b
      → (b : P.Float) × (y.candidate_score ≡ some b) × Beats y.candidate_checkpoint_id b
  beaten x y b i c e better = (b, e, (x, i.visited, sym c, better))

  Step-Accepted : (x y : StateSnapshot P) → Step P limits x y → Accepted x → Accepted y
  Step-Accepted x y (trained c cost h b e) i =
      keeps x y (trained c cost h b e) i (λ n. ground (arith, h, n))
        (λ o. ground (arith, o, ap (λ p. p.state) e)) (ap (λ p. p.active_checkpoint_id) e)
        (ap (λ p. p.peak_checkpoint_id) e) (λ r. absurd (ground (arith, r, ap (λ p. p.state) e)))
  Step-Accepted x y (abort c cost why (inl h) e) i =
      keeps x y (abort c cost why (inl h) e) i (λ n. ground (arith, h, n))
        (λ o. ground (arith, o, ap (λ p. p.state) e)) (ap (λ p. p.active_checkpoint_id) e)
        (ap (λ p. p.peak_checkpoint_id) e) (λ r. absurd (ground (arith, r, ap (λ p. p.state) e)))
  Step-Accepted x y (abort c cost why (inr h) e) i =
      keeps x y (abort c cost why (inr h) e) i (λ n. ground (arith, h, n))
        (λ o. ground (arith, o, ap (λ p. p.state) e)) (ap (λ p. p.active_checkpoint_id) e)
        (ap (λ p. p.peak_checkpoint_id) e) (λ r. absurd (ground (arith, r, ap (λ p. p.state) e)))
  Step-Accepted x y (ask b cost h better r l e) i =
      keeps x y (ask b cost h better r l e) i (λ n. ground (arith, h, n))
        (λ o. ground (arith, o, ap (λ p. p.state) e)) (ap (λ p. p.active_checkpoint_id) e)
        (ap (λ p. p.peak_checkpoint_id) e) (λ r. absurd (ground (arith, r, ap (λ p. p.state) e)))
  Step-Accepted x y (promote b cost h better r l e) i =
      keeps x y (promote b cost h better r l e) i (λ n. ground (arith, h, n))
        (λ o. ground (arith, o, ap (λ p. p.state) e)) (ap (λ p. p.active_checkpoint_id) e)
        (ap (λ p. p.peak_checkpoint_id) e)
        (λ _.
          beaten x y b i (ap (λ p. p.candidate_checkpoint_id) e) (ap (λ p. p.candidate_score) e)
            better)
  Step-Accepted x y (reject a b cost h p better l e) i =
      keeps x y (reject a b cost h p better l e) i (λ n. ground (arith, h, n))
        (λ o. ground (arith, o, ap (λ p. p.state) e)) (ap (λ p. p.active_checkpoint_id) e)
        (ap (λ p. p.peak_checkpoint_id) e) (λ r. absurd (ground (arith, r, ap (λ p. p.state) e)))
  Step-Accepted x y (approve b h c better e) i =
      keeps x y (approve b h c better e) i (λ n. ground (arith, h, n))
        (λ o. ground (arith, o, ap (λ p. p.state) e)) (ap (λ p. p.active_checkpoint_id) e)
        (ap (λ p. p.peak_checkpoint_id) e)
        (λ _.
          beaten x y b i (ap (λ p. p.candidate_checkpoint_id) e) (ap (λ p. p.candidate_score) e ∙ c)
            better)
  Step-Accepted x y (deny h e) i =
      keeps x y (deny h e) i (λ n. ground (arith, h, n))
        (λ o. ground (arith, o, ap (λ p. p.state) e)) (ap (λ p. p.active_checkpoint_id) e)
        (ap (λ p. p.peak_checkpoint_id) e) (λ r. absurd (ground (arith, r, ap (λ p. p.state) e)))
  Step-Accepted x y (commit c h d e) i =
      let (b, found, beats) = i.decided h in
      let active : y.active_checkpoint_id ≡ some c = ap (λ p. p.active_checkpoint_id) e in
      let peak : y.peak_checkpoint_id ≡ some c = ap (λ p. p.peak_checkpoint_id) e in
      let state : y.state ≡ ControlState.slim_harness = ap (λ p. p.state) e in
      record {
        visited = (suc i.visited.0, next i.visited.1 (commit c h d e));
        active_is_peak = active ∙ sym peak;
        kept = λ other. absurd (other state);
        committed = λ _. (c, b, active, (x, i.visited, h, d, found), rw d at beats);
        decided = λ r. absurd (ground (arith, r, state));
      }
  Step-Accepted x y (restore h e) i =
      keeps x y (restore h e) i (λ n. ground (arith, h, n))
        (λ o. ground (arith, o, ap (λ p. p.state) e)) (ap (λ p. p.active_checkpoint_id) e)
        (ap (λ p. p.peak_checkpoint_id) e) (λ r. absurd (ground (arith, r, ap (λ p. p.state) e)))

  -- In any run of calls that return, from TRAIN_MODEL with the active checkpoint as Peak, the active
  -- checkpoint is the Peak. In every state but SLIM_HARNESS it is the one from before; in
  -- SLIM_HARNESS it is a candidate that the run decided to promote at its evaluated score, which is
  -- above the score that a passed snapshot with this candidate gives for the accepted model by more
  -- than the minimum improvement.
  pub Run-Accepted :
      (t : StateSnapshot P) (n : ℕ)
      → s.state ≡ ControlState.train_model
      → s.active_checkpoint_id ≡ s.peak_checkpoint_id
      → Run P limits s n t
      → Accepted t
  Run-Accepted t n h p r = Run-keeps P limits Accepted Step-Accepted r (record {
    visited = (0, here);
    active_is_peak = p;
    kept = λ _. refl;
    committed = λ q. absurd (ground (arith, h, q));
    decided = λ q. absurd (ground (arith, h, q));
  })
