-- ===== src/Tests/Usage.antt =====
-- app/services/usage_service.py on four calls of two users.
use ultimate_assistant_ai_ga.Base.{ℕ, ◌≡◌, refl, String, List, [], ◌∷◌, keep, str_dec}
use ultimate_assistant_ai_ga.Services.Usage.{
  UsageRow, SummaryItem, add_row, insert_sorted, get_summary,
}
use ultimate_assistant_ai_ga.Services.Usage.Groups.{Descending}
use ultimate_assistant_ai_ga.Services.Usage.Reports.{is_entry, Summed, get_summary_lem}

abbrev call : ℕ → String → ℕ → ℕ → UsageRow
call user_id model cost at = record {
  usage = record {
    id = at;
    user_id = user_id;
    provider = "openai";
    model = model;
    input_tokens = 2;
    output_tokens = 3;
    cost = 0;
    estimated_cost_usd = cost;
    latency_ms = 10;
  };
  created_at = at;
}

abbrev calls : List UsageRow
calls =
    call 7 "small" 5 4
    ∷ call 7 "large" 90 5
    ∷ call 8 "large" 90 6
    ∷ call 7 "small" 6 7
    ∷ call 7 "large" 1 1
    ∷ []

summed :
    get_summary 7 3 calls
    ≡ record {
      provider = "openai";
      model = "large";
      total_requests = 1;
      total_input_tokens = 2;
      total_output_tokens = 3;
      total_cost_usd = 90;
      avg_latency_ms = record { total = 10; count = 1 };
    }
      ∷ record {
        provider = "openai";
        model = "small";
        total_requests = 2;
        total_input_tokens = 4;
        total_output_tokens = 6;
        total_cost_usd = 11;
        avg_latency_ms = record { total = 20; count = 2 };
      }
      ∷ []
unfolding get_summary add_row insert_sorted str_dec
summed = refl

get_summary_lem_example :
    Summed 7 3 "openai" "small" calls (keep (is_entry "openai" "small") (get_summary 7 3 calls))
    × Descending (λ (i : SummaryItem). i.total_cost_usd) (get_summary 7 3 calls)
get_summary_lem_example = get_summary_lem 7 3 "openai" "small" calls
