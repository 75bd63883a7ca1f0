-- ===== src/Services/Cost/Budget.antt =====
-- What `check_budget` decides, and which models are free.
use ultimate_assistant_ai_ga.Base.{
  ℕ, ◌+◌, ◌*◌, ◌-◌, ◌<◌, ◌≡◌, true, false, none, some, arith, leb, ltb, if◌then◌else◌,
}
use ultimate_assistant_ai_ga.Base.Int.{pos, ◌-ℤ◌}
use ultimate_assistant_ai_ga.Base.Action.{ok}
use ultimate_assistant_ai_ga.Services.Cost.{would_exceed, nearly_spent, check_budget}

-- Under a positive budget a request is allowed exactly if what was spent and the estimate fit into it;
-- an allowed request is warned of if less than a tenth of the budget was left before it.
pub check_budget_lem :
    (budget spend estimate : ℕ)
    → 0 < budget
    → check_budget (some budget) spend estimate
      ≡ ok (
          if leb (spend + estimate) budget
          then record {
            allowed = true;
            remaining = some (pos (budget - spend));
            warning =
                if ltb ((budget - spend) * 10) budget
                then some (nearly_spent (pos (budget - spend)) budget)
                else none;
          }
          else record {
            allowed = false;
            remaining = some (pos budget -ℤ pos spend);
            warning = some (would_exceed budget spend);
          })
unfolding check_budget ◌-ℤ◌
check_budget_lem budget spend estimate h = ground arith
