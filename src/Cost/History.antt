-- ===== src/Cost/History.antt =====
-- What the ledger of cost.py holds after any history of calls.
use post_training_rsi_pipeli.Prelude.{
  ℕ, true, false, ◌==◌, ==_iff, String, List, [], ◌∷◌, ok, ◌≡◌, refl, arith, if◌then◌else◌, inl,
  inr, ◌⊎◌, ◌≢◌, Error, raise, value_error, budget_exceeded, ◌||◌, ◌∙◌, Bool-cases,
}
use post_training_rsi_pipeli.Platform.{Platform}
use post_training_rsi_pipeli.Config.{BudgetConfig}
use post_training_rsi_pipeli.Cost.{
  CostLedger, new_ledger, charge_of, set_charge, iteration_total, over_iteration_limit,
  over_total_limit, charge, record_api_failure, record_api_success,
}

module _ (P : Platform) where
  -- A run from a new ledger, with the charges that were accepted, the latest first.
  pub data Reaches (config : BudgetConfig P) : List (ℕ × P.Float) → CostLedger P → Type 0 where
    created : Reaches config [] (new_ledger P config)
    accepted :
        {history : List (ℕ × P.Float)} {ledger : CostLedger P} (amount : P.Float) (iteration : ℕ)
        (category : String)
        → Reaches config history ledger
        → (charge P ledger amount iteration category).1 ≡ ok tt
        → Reaches config
            ((iteration, amount) ∷ history)
            ((charge P ledger amount iteration category).0)
    refused :
        {history : List (ℕ × P.Float)} {ledger : CostLedger P} (amount : P.Float) (iteration : ℕ)
        (category : String)
        → Reaches config history ledger
        → ((charge P ledger amount iteration category).1 ≡ ok tt → ⊥)
        → Reaches config history ((charge P ledger amount iteration category).0)
    failed :
        {history : List (ℕ × P.Float)} {ledger : CostLedger P} (provider error : String)
        → Reaches config history ledger
        → Reaches config history ((record_api_failure P ledger provider error).0)
    succeeded :
        {history : List (ℕ × P.Float)} {ledger : CostLedger P}
        → Reaches config history ledger
        → Reaches config history (record_api_success P ledger)

  -- the accepted amounts, added in the order of the calls
  abbrev pub spent : List (ℕ × P.Float) → P.Float
  spent [] = P.zero_float
  spent ((i, amount) ∷ history) = P.add (spent history) amount

  -- those of one iteration
  abbrev pub spent_in : ℕ → List (ℕ × P.Float) → P.Float
  spent_in iteration [] = P.zero_float
  spent_in iteration ((i, amount) ∷ history) =
      let rest = spent_in iteration history in if iteration == i then P.add rest amount else rest

  charge_of-set_charge :
      (i j : ℕ) (amount : P.Float) (charges : List (ℕ × P.Float))
      → charge_of P i (set_charge P j amount charges)
        ≡ (if i == j then amount else charge_of P i charges)
  charge_of-set_charge i j amount [] = refl
  charge_of-set_charge i j amount ((k, old) ∷ charges) =
      ground (arith, charge_of-set_charge i j amount charges)

  -- What an accepted charge leaves.
  pub record ChargedBy (ledger : CostLedger P) (amount : P.Float) (iteration : ℕ)
      (left : CostLedger P) : Type 0 where
    pub not_negative : P.less amount P.zero_float ≡ false
    pub same_config : left.config ≡ ledger.config
    pub total : left.total_charged_usd ≡ P.add ledger.total_charged_usd amount
    pub total_fits : over_total_limit P ledger left.total_charged_usd ≡ false
    pub of_iteration :
        iteration_total P left iteration ≡ P.add (iteration_total P ledger iteration) amount
    pub iteration_fits : over_iteration_limit P ledger (iteration_total P left iteration) ≡ false
    pub others : (i : ℕ) → i ≢ iteration → iteration_total P left i ≡ iteration_total P ledger i

  -- `charge` either accepts the amount, adding it to the total and to its own iteration only, or
  -- raises and leaves the ledger as it was, for an amount below 0.0 or a sum above its limit.
  pub charge-cases :
      (ledger : CostLedger P) (amount : P.Float) (iteration : ℕ) (category : String)
      → (((charge P ledger amount iteration category).1 ≡ ok tt)
          × ChargedBy ledger amount iteration (charge P ledger amount iteration category).0)
        ⊎ ((e : Error) × (charge P ledger amount iteration category ≡ (ledger, raise e))
            × ((P.less amount P.zero_float
                  || over_iteration_limit P ledger
                      (P.add (iteration_total P ledger iteration) amount)
                  || over_total_limit P ledger (P.add ledger.total_charged_usd amount))
                ≡ true))
  unfolding charge
  charge-cases ledger amount iteration category = elim (Bool-cases (P.less amount P.zero_float)) [
    | inl negative ↦ inr (value_error, ground (arith, negative), ground (arith, negative))
    | inr fine ↦
        elim (Bool-cases
          (over_iteration_limit P ledger (P.add (iteration_total P ledger iteration) amount))) [
            | inl over ↦
                inr (budget_exceeded, ground (arith, fine, over), ground (arith, fine, over))
            | inr fits ↦
                elim (Bool-cases
                  (over_total_limit P ledger (P.add ledger.total_charged_usd amount))) [
                    | inl over ↦ inr (
                      budget_exceeded,
                      ground (arith, fine, fits, over),
                      ground (arith, fine, fits, over),
                    )
                    | inr total_fits ↦ inl (
                      ground (arith, fine, fits, total_fits),
                      rw (fine, fits, total_fits)
                          (record {
                            not_negative = fine;
                            same_config = refl;
                            total = refl;
                            total_fits = total_fits;
                            of_iteration = ground (
                              arith,
                              charge_of-set_charge iteration iteration
                                  (P.add (iteration_total P ledger iteration) amount)
                                  ledger.charges_by_iteration,
                            );
                            iteration_fits = ground (
                              arith,
                              fits,
                              charge_of-set_charge iteration iteration
                                  (P.add (iteration_total P ledger iteration) amount)
                                  ledger.charges_by_iteration,
                            );
                            others = λ i n. ground (
                              arith,
                              charge_of-set_charge i iteration
                                  (P.add (iteration_total P ledger iteration) amount)
                                  ledger.charges_by_iteration,
                            );
                          }),
                    )
                  ]
          ]
  ]

  -- The ledger agrees with the history, and no sum compares as greater than its limit.
  pub record Accounts (config : BudgetConfig P) (history : List (ℕ × P.Float))
      (ledger : CostLedger P) : Type 0 where
    pub same_config : ledger.config ≡ config
    pub total : ledger.total_charged_usd ≡ spent history
    pub by_iteration : (i : ℕ) → iteration_total P ledger i ≡ spent_in i history
    pub total_in_limit : over_total_limit P ledger ledger.total_charged_usd ≡ false
    pub iterations_in_limit :
        (i : ℕ) → over_iteration_limit P ledger (iteration_total P ledger i) ≡ false

  charged-Accounts :
      (config : BudgetConfig P) (history : List (ℕ × P.Float)) (amount : P.Float) (iteration : ℕ)
      (ledger left : CostLedger P)
      → Accounts config history ledger
      → ChargedBy ledger amount iteration left
      → Accounts config ((iteration, amount) ∷ history) left
  charged-Accounts config history amount iteration ledger left a c = record {
    same_config = c.same_config ∙ a.same_config;
    total = ground (arith, c.total, a.total);
    by_iteration = λ i. elim (Bool-cases (i == iteration)) [
      | inl same ↦
          ground (arith, c.of_iteration, a.by_iteration iteration, (==_iff i iteration).0 same)
      | inr other ↦ ground (arith, other, c.others i, a.by_iteration i)
    ];
    total_in_limit = rw c.same_config c.total_fits;
    iterations_in_limit = λ i. elim (Bool-cases (i == iteration)) [
      | inl same ↦ rw (c.same_config, (==_iff i iteration).0 same) c.iteration_fits
      | inr other ↦ rw (c.same_config, c.others i (ground (arith, other))) (a.iterations_in_limit i)
    ];
  }

  -- After any calls from a new ledger, the total is the sum of the accepted charges, that of an
  -- iteration is the sum of its own, and neither compares as greater than its limit plus 1e-12, if
  -- 0.0 does not. A sum that is NaN compares as greater than no limit.
  pub Reaches-Accounts :
      (config : BudgetConfig P) (history : List (ℕ × P.Float)) (ledger : CostLedger P)
      → P.less (P.add config.total_limit_usd P.tiny) P.zero_float ≡ false
      → P.less (P.add config.per_iteration_limit_usd P.tiny) P.zero_float ≡ false
      → Reaches config history ledger
      → Accounts config history ledger
  unfolding record_api_failure record_api_success
  Reaches-Accounts config _ _ ht hi created = record {
    same_config = refl;
    total = refl;
    by_iteration = λ i. refl;
    total_in_limit = ht;
    iterations_in_limit = λ i. hi;
  }
  Reaches-Accounts config _ _ ht hi (accepted {history} {ledger} amount iteration category r h) =
      let a = Reaches-Accounts config history ledger ht hi r in
      elim (charge-cases ledger amount iteration category) [
        | inl (_, c) ↦ charged-Accounts config history amount iteration ledger _ a c
        | inr (e, refusal, _) ↦ absurd (ground (arith, h, refusal))
      ]
  Reaches-Accounts config _ _ ht hi (refused {history} {ledger} amount iteration category r h) =
      let a = Reaches-Accounts config history ledger ht hi r in
      elim (charge-cases ledger amount iteration category) [
        | inl (passed, _) ↦ absurd (h passed)
        | inr (e, refusal, _) ↦ rw refusal a
      ]
  Reaches-Accounts config _ _ ht hi (failed {history} {ledger} provider error r) =
      let a = Reaches-Accounts config history ledger ht hi r in
      record {
        same_config = a.same_config;
        total = a.total;
        by_iteration = a.by_iteration;
        total_in_limit = a.total_in_limit;
        iterations_in_limit = a.iterations_in_limit;
      }
  Reaches-Accounts config _ _ ht hi (succeeded {history} {ledger} r) =
      let a = Reaches-Accounts config history ledger ht hi r in
      record {
        same_config = a.same_config;
        total = a.total;
        by_iteration = a.by_iteration;
        total_in_limit = a.total_in_limit;
        iterations_in_limit = a.iterations_in_limit;
      }
