-- ===== src/Tests/Ranking.antt =====
-- app/services/cost_service.py and app/services/ranker.py on small inputs.
use ultimate_assistant_ai_ga.Base.{
  ℕ, ◌+◌, ◌*◌, ◌-◌, ◌/◌, ◌<◌, ◌≡◌, refl, true, false, none, some, [], ◌∷◌, arith, str_dec, leb, inr,
  ltb, if◌then◌else◌,
}
use mathlib.Core.List.{Perm}
use ultimate_assistant_ai_ga.Base.Int.{pos, ◌-ℤ◌}
use ultimate_assistant_ai_ga.Base.Action.{ok}
use ultimate_assistant_ai_ga.Redis.{
  Key-discrete, latency_p50, errors_rate, number, stats_success, stats_failure,
}
use ultimate_assistant_ai_ga.Redis.Memory.{empty, memory, memory-RedisLaws}
use ultimate_assistant_ai_ga.Providers.Capabilities.{Candidate}
use ultimate_assistant_ai_ga.Services.Cost.{
  rates_of, estimate_cost, estimate, check_budget, would_exceed, nearly_spent,
}
use ultimate_assistant_ai_ga.Services.Cost.Budget.{check_budget_lem}
use ultimate_assistant_ai_ga.Services.Ranker.{
  Rounding, IsNearest, cost_weight, place, sort, score_of, rank, record_success,
}
use ultimate_assistant_ai_ga.Services.Ranker.Stats.{IsKnown, record_success_stats}
use ultimate_assistant_ai_ga.Services.Ranker.Order.{Ranked, rank-Ranked}

program : Unit {0}
unfolding str_dec Key-discrete rates_of estimate_cost estimate check_budget ◌-ℤ◌ cost_weight place
    sort score_of rank
program = tt

-- 3 and 5 tokens of gpt-4o, at 2.50 and 10.00 dollars a million
gpt_4o : estimate "openai" "gpt-4o" 3 5 ≡ 5750
unfolding program
gpt_4o = refl

low :
    check_budget (some 100) 91 5
    ≡ ok (record {
      allowed = true;
      remaining = some (pos 9);
      warning = some (nearly_spent (pos 9) 100);
    })
unfolding program
low = refl

check_budget_lem_example :
    check_budget (some 100) 91 5
    ≡ ok (
        if leb (91 + 5) 100
        then record {
          allowed = true;
          remaining = some (pos (100 - 91));
          warning =
              if ltb ((100 - 91) * 10) 100 then some (nearly_spent (pos (100 - 91)) 100) else none;
        }
        else record {
          allowed = false;
          remaining = some (pos 100 -ℤ pos 91);
          warning = some (would_exceed 100 91);
        })
check_budget_lem_example = check_budget_lem 100 91 5 (omega arith)

nearest_lem : (x k : ℕ) → 0 < k → IsNearest ((2 * x + k) / (2 * k)) x k
nearest_lem x k h = grind arith

nearest : Rounding
nearest = record { rounded = λ x k. (2 * x + k) / (2 * k); rounded-IsNearest = nearest_lem }

-- a cheap model, a dear one, and a free one
abbrev mini : Candidate
mini = record { provider = "openai"; model = "gpt-4o-mini" }

abbrev opus : Candidate
opus = record { provider = "anthropic"; model = "claude-opus-4-20250514" }

abbrev llama : Candidate
llama = record { provider = "ollama"; model = "llama3.2" }

free_ranks_last : rank memory nearest 0 empty (llama ∷ opus ∷ mini ∷ []) ≡ mini ∷ opus ∷ llama ∷ []
unfolding program
free_ranks_last = refl

rank-Ranked_example :
    Perm (rank memory nearest 0 empty (llama ∷ opus ∷ [])) (llama ∷ opus ∷ [])
    × Ranked (score_of memory nearest 0 empty) (rank memory nearest 0 empty (llama ∷ opus ∷ []))
    × (Ranked (score_of memory nearest 0 empty) (llama ∷ opus ∷ [])
        → rank memory nearest 0 empty (llama ∷ opus ∷ []) ≡ llama ∷ opus ∷ [])
rank-Ranked_example = rank-Ranked memory nearest 0 empty (llama ∷ opus ∷ [])

llama_free : estimate_cost "ollama" "llama3.2" 1000 1000 ≡ 0
unfolding program
llama_free = refl

opus_cost : estimate_cost "anthropic" "claude-opus-4-20250514" 1000 1000 ≡ 9000000
unfolding program
opus_cost = refl

known : IsKnown memory memory-RedisLaws nearest 0 "openai" "gpt-4o" 120 1200 empty
known = inr (refl, refl)

record_success_stats_example :
    let s' = record_success memory nearest 0 "openai" "gpt-4o" 120 empty in
    (latency rate : ℕ) × (memory.get 0 (latency_p50 "openai" "gpt-4o") s' ≡ some (number latency))
    × IsNearest latency (7 * 1200 + 3 * (10 * 120)) 10
    × (memory.get 0 (stats_success "openai") s' ≡ some (number (0 + 1)))
    × (memory.get 0 (stats_failure "openai") s' ≡ memory.get 0 (stats_failure "openai") empty)
    × (memory.get 0 (errors_rate "openai") s' ≡ some (number rate))
    × IsNearest rate (10000 * 0) (0 + 1 + 0)
record_success_stats_example =
    record_success_stats memory memory-RedisLaws nearest 0 "openai" "gpt-4o" 120 1200 empty known
