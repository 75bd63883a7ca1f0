-- ===== src/Services/Usage.antt =====
-- app/services/usage_service.py, the three reports; `record` stands in Db. A query is a function of the rows: where,
-- group by and order by mean what they mean in SQL; rows that the order leaves open stand as first seen. Money is
-- in units of 10^-8 dollars, times are in microseconds.
pub mod Groups
pub mod Reports
use ultimate_assistant_ai_ga.Base.{
  ℕ, zero, suc, ◌+◌, ◌*◌, ◌/◌, ◌-◌, String, Bool, true, false, Option, none, some, List, [], ◌∷◌,
  map, ◌==◌, ◌&&◌, keep, ite, leb, ltb, if◌then◌else◌, str_dec, ℕ_discrete,
}
use ultimate_assistant_ai_ga.Base.Int.{ℤ, pos, ◌-ℤ◌}
use ultimate_assistant_ai_ga.Db.{Usage}

-- a row, with the time that the server gave it
pub record UsageRow : Type 0 where
  pub usage : Usage
  pub created_at : ℕ

-- what is counted and added up over the rows of one group
pub record Group (K : Type 0) : Type 0 where
  pub key : K
  pub requests : ℕ
  pub input_tokens : ℕ
  pub output_tokens : ℕ
  pub cost : ℕ
  pub latency : ℕ

-- an average, by the sum and the count
pub record Average : Type 0 where
  pub total : ℕ
  pub count : ℕ

pub record SummaryItem : Type 0 where
  pub provider : String
  pub model : String
  pub total_requests : ℕ
  pub total_input_tokens : ℕ
  pub total_output_tokens : ℕ
  pub total_cost_usd : ℕ
  pub avg_latency_ms : Average

-- `date` is the day's number
pub record DailyItem : Type 0 where
  pub date : ℕ
  pub total_requests : ℕ
  pub total_input_tokens : ℕ
  pub total_output_tokens : ℕ
  pub total_cost_usd : ℕ

unfoldable pub Pair-discrete : Discrete (String × String)
Pair-discrete = hlevel str_dec

module _ {K : Type 0} (dec : Discrete K) where
  -- `GROUP BY`: a row joins the group of its key, or starts one
  unfoldable pub add_row : K → Usage → List (Group K) → List (Group K)
  add_row k u [] =
      record {
        key = k;
        requests = 1;
        input_tokens = u.input_tokens;
        output_tokens = u.output_tokens;
        cost = u.estimated_cost_usd;
        latency = u.latency_ms;
      }
      ∷ []
  add_row k u (g ∷ gs) =
      ite (dec g.key k)
        (record g {
          requests = g.requests + 1;
          input_tokens = g.input_tokens + u.input_tokens;
          output_tokens = g.output_tokens + u.output_tokens;
          cost = g.cost + u.estimated_cost_usd;
          latency = g.latency + u.latency_ms;
        }
          ∷ gs)
        (g ∷ add_row k u gs)

  unfoldable pub group : (UsageRow → K) → List UsageRow → List (Group K)
  unfolding add_row
  group key [] = []
  group key (r ∷ rows) = add_row (key r) r.usage (group key rows)

-- `ORDER BY`, where `before g h` puts `g` first
module _ {A : Type 0} (before : A → A → Bool) where
  unfoldable pub insert_sorted : A → List A → List A
  insert_sorted g [] = g ∷ []
  insert_sorted g (h ∷ hs) = if before g h then g ∷ h ∷ hs else h ∷ insert_sorted g hs

  unfoldable pub order : List A → List A
  unfolding insert_sorted
  order [] = []
  order (g ∷ gs) = insert_sorted g (order gs)

-- `Usage.user_id == user_id, Usage.created_at >= since`
abbrev pub is_recent : ℕ → ℕ → UsageRow → Bool
is_recent user_id since r = r.usage.user_id == user_id && leb since r.created_at

abbrev pub model_key : UsageRow → String × String
model_key r = (r.usage.provider, r.usage.model)

-- `cast(Usage.created_at, Date)`
abbrev pub day_of : UsageRow → ℕ
day_of r = r.created_at / 86400000000

abbrev pub summary_item : Group (String × String) → SummaryItem
summary_item g = record {
  provider = g.key.0;
  model = g.key.1;
  total_requests = g.requests;
  total_input_tokens = g.input_tokens;
  total_output_tokens = g.output_tokens;
  total_cost_usd = g.cost;
  avg_latency_ms = record { total = g.latency; count = g.requests };
}

abbrev pub daily_item : Group ℕ → DailyItem
daily_item g = record {
  date = g.key;
  total_requests = g.requests;
  total_input_tokens = g.input_tokens;
  total_output_tokens = g.output_tokens;
  total_cost_usd = g.cost;
}

abbrev pub dearer : {K : Type 0} → Group K → Group K → Bool
dearer g h = ltb h.cost g.cost

abbrev pub earlier : Group ℕ → Group ℕ → Bool
earlier g h = ltb g.key h.key

unfoldable pub get_summary : ℕ → ℕ → List UsageRow → List SummaryItem
unfolding group order Pair-discrete
get_summary user_id since rows =
    map summary_item
      (order dearer (group Pair-discrete model_key (keep (is_recent user_id since) rows)))

unfoldable pub get_daily_breakdown : ℕ → ℕ → List UsageRow → List DailyItem
unfolding group order
get_daily_breakdown user_id since rows =
    map daily_item (order earlier (group ℕ_discrete day_of (keep (is_recent user_id since) rows)))

abbrev pub sum_of : {A : Type 0} → (A → ℕ) → List A → ℕ
sum_of f [] = 0
sum_of f (x ∷ xs) = f x + sum_of f xs
