-- ===== src/Services/Usage/Reports.antt =====
-- The reports against a description of their entries, one by one.
use ultimate_assistant_ai_ga.Base.{
  ℕ, suc, ◌+◌, ◌≤◌, ◌<◌, ◌≡◌, refl, sym, ap, subst, ◌∙◌, String, Bool, true, false, List, [], ◌∷◌,
  map, keep, ite, arith, ℕ_discrete, ◌⊎◌, inl, inr, ◌&&◌, ◌==◌, leb, same, str_dec, if_pos, if_neg,
  if◌then◌else◌, length, List-cases,
}
use ultimate_assistant_ai_ga.Base.Lists.{All}
use ultimate_assistant_ai_ga.Db.{Usage}
use ultimate_assistant_ai_ga.Services.Usage.{
  UsageRow, Group, SummaryItem, DailyItem, Pair-discrete, group, order, is_recent, model_key,
  day_of, summary_item, daily_item, dearer, earlier, get_summary, get_daily_breakdown, sum_of,
}
use ultimate_assistant_ai_ga.Services.Usage.Groups.{
  has_key, row_has_key, described, keep-group, length-described, keep-order, Descending,
  order-Descending,
}

keep-map :
    {A B : Type 0} (f : A → B) (p : B → Bool) (xs : List A)
    → keep p (map f xs) ≡ map f (keep (λ x. p (f x)) xs)
keep-map f p [] = refl
keep-map f p (x ∷ xs) = ground (arith, keep-map f p xs)

-- the ordered groups, as to one key
keep-report :
    {K : Type 0} (dec : Discrete K) (before : Group K → Group K → Bool) (key : UsageRow → K) (k : K)
    (rows : List UsageRow)
    → keep (has_key dec k) (order before (group dec key rows))
      ≡ described dec k (keep (row_has_key dec k key) rows)
keep-report dec before key k rows =
    keep-order before (has_key dec k) (group dec key rows)
      (rw (keep-group dec k key rows) (length-described dec k (keep (row_has_key dec k key) rows)))
    ∙ keep-group dec k key rows

-- The entry of a summary for a provider and a model.
abbrev pub is_entry : String → String → SummaryItem → Bool
is_entry p m item = same item.provider p && same item.model m

-- A call of the user's since a time, through a provider and a model.
abbrev pub is_call : ℕ → ℕ → String → String → UsageRow → Bool
is_call user_id since p m r =
    r.usage.user_id == user_id
    && (leb since r.created_at && (same r.usage.provider p && same r.usage.model m))

-- What such calls come to, one by one.
abbrev pub tally : ℕ → ℕ → String → String → (Usage → ℕ) → List UsageRow → ℕ
tally user_id since p m f [] = 0
tally user_id since p m f (r ∷ rows) =
    (if is_call user_id since p m r then f r.usage else 0) + tally user_id since p m f rows

pair-same :
    (a b p m : String) → ite (Pair-discrete (a, b) (p, m)) true false ≡ (same a p && same b m)
pair-same a b p m = elim (str_dec a p) [
  | yes e ↦ elim (str_dec b m) [
    | yes d ↦
        let both : ◌≡◌ {A = String × String} (a, b) (p, m) = rw (e, d) refl in
        rw
          (
            if_pos (Pair-discrete (a, b) (p, m)) both,
            if_pos (str_dec a p) e,
            if_pos (str_dec b m) d,
          )
          refl
    | no n ↦
        rw
          (
            if_neg (Pair-discrete (a, b) (p, m)) (λ q. n (ap (λ (z : String × String). z.1) q)),
            if_pos (str_dec a p) e,
            if_neg (str_dec b m) n,
          )
          refl
  ]
  | no n ↦
      rw
        (
          if_neg (Pair-discrete (a, b) (p, m)) (λ q. n (ap (λ (z : String × String). z.0) q)),
          if_neg (str_dec a p) n,
        )
        refl
]

keep_ext :
    {A : Type 0} (p q : A → Bool) (xs : List A) → ((x : A) → p x ≡ q x) → keep p xs ≡ keep q xs
keep_ext p q [] h = refl
keep_ext p q (x ∷ xs) h = ground (arith, h x, keep_ext p q xs h)

module _ (user_id since : ℕ) (p m : String) where
  -- the rows of the entry, as the report picks them
  abbrev picked : List UsageRow → List UsageRow
  picked rows =
      keep (row_has_key Pair-discrete (p, m) model_key) (keep (is_recent user_id since) rows)

  module _ (f : Usage → ℕ) where
    sum-picked :
        (rows : List UsageRow)
        → sum_of (λ (r : UsageRow). f r.usage) (picked rows) ≡ tally user_id since p m f rows
    sum-picked [] = refl
    sum-picked (r ∷ rows) =
        ground (arith, pair-same r.usage.provider r.usage.model p m, sum-picked rows)

  length-picked :
      (rows : List UsageRow) → length (picked rows) ≡ tally user_id since p m (λ u. 1) rows
  length-picked [] = refl
  length-picked (r ∷ rows) =
      ground (arith, pair-same r.usage.provider r.usage.model p m, length-picked rows)

  -- the entry, by what the calls come to
  abbrev pub summed : List UsageRow → SummaryItem
  summed rows = record {
    provider = p;
    model = m;
    total_requests = tally user_id since p m (λ u. 1) rows;
    total_input_tokens = tally user_id since p m (λ u. u.input_tokens) rows;
    total_output_tokens = tally user_id since p m (λ u. u.output_tokens) rows;
    total_cost_usd = tally user_id since p m (λ u. u.estimated_cost_usd) rows;
    avg_latency_ms = record {
      total = tally user_id since p m (λ u. u.latency_ms) rows;
      count = tally user_id since p m (λ u. 1) rows;
    };
  }

  abbrev pub Summed : List UsageRow → List SummaryItem → Type 0
  Summed rows entries =
      ((tally user_id since p m (λ u. 1) rows ≡ 0) × (entries ≡ []))
      ⊎ ((0 < tally user_id since p m (λ u. 1) rows) × (entries ≡ summed rows ∷ []))

  described-Summed :
      (rows : List UsageRow)
      → Summed rows (map summary_item (described Pair-discrete (p, m) (picked rows)))
  described-Summed rows =
      let n = length-picked rows in
      let i = sum-picked (λ u. u.input_tokens) rows in
      let o = sum-picked (λ u. u.output_tokens) rows in
      let c = sum-picked (λ u. u.estimated_cost_usd) rows in
      let l = sum-picked (λ u. u.latency_ms) rows in
      elim (List-cases (picked rows)) [
        | inl e ↦
            let none_such : 0 ≡ tally user_id since p m (λ u. 1) rows = rw e at n in
            inl (sym none_such, rw e refl)
        | inr (x, xs, e) ↦ inr (
          (let counted : suc (length xs) ≡ tally user_id since p m (λ u. 1) rows = rw e at n in
              omega arith),
          rw (← n, ← i, ← o, ← c, ← l) (rw e refl),
        )
      ]

All-map :
    (n : ℕ) (gs : List (Group (String × String)))
    → All (λ h. h.cost ≤ n) gs
    → All (λ (i : SummaryItem). i.total_cost_usd ≤ n) (map summary_item gs)
All-map n [] h = tt
All-map n (g ∷ gs) h = (h.0, All-map n gs h.1)

-- The entry of a day.
abbrev pub is_day : ℕ → DailyItem → Bool
is_day d item = ite (ℕ_discrete item.date d) true false

Descending-map :
    (gs : List (Group (String × String)))
    → Descending (λ g. g.cost) gs
    → Descending (λ (i : SummaryItem). i.total_cost_usd) (map summary_item gs)
Descending-map [] h = tt
Descending-map (g ∷ gs) h = (All-map g.cost gs h.0, Descending-map gs h.1)

-- The summary since a time has, for each provider and model, no entry if the user has made no call through them since
-- then, and otherwise one, with the number of these calls, the sums of their tokens and costs, and the sum and the
-- number behind their average latency, as they are counted one by one over all users' calls; and the dearest entries
-- come first.
pub get_summary_lem :
    (user_id since : ℕ) (p m : String) (rows : List UsageRow)
    → Summed user_id since p m rows (keep (is_entry p m) (get_summary user_id since rows))
      × Descending (λ (i : SummaryItem). i.total_cost_usd) (get_summary user_id since rows)
unfolding get_summary
get_summary_lem user_id since p m rows =
    let recent = keep (is_recent user_id since) rows in
    let groups = group Pair-discrete model_key recent in
    let entries : keep (is_entry p m) (map summary_item (order dearer groups))
        ≡ map summary_item (described Pair-discrete (p, m) (picked user_id since p m rows)) =
      keep-map summary_item (is_entry p m) (order dearer groups)
      ∙ ap (map summary_item) (
          keep_ext (λ g. is_entry p m (summary_item g)) (has_key Pair-discrete (p, m))
            (order dearer groups) (λ g. sym (pair-same g.key.0 g.key.1 p m)))
      ∙ ap (map summary_item) (keep-report Pair-discrete dearer model_key (p, m) recent) in
    (
      subst (λ es. Summed user_id since p m rows es) (sym entries)
          (described-Summed user_id since p m rows),
      Descending-map (order dearer groups) (order-Descending (λ g. g.cost) groups),
    )

-- The daily report has one entry for each day with calls of the user's, likewise.
pub get_daily_breakdown_lem :
    (user_id since d : ℕ) (rows : List UsageRow)
    → keep (is_day d) (get_daily_breakdown user_id since rows)
      ≡ map daily_item (
          described ℕ_discrete d
            (keep (row_has_key ℕ_discrete d day_of) (keep (is_recent user_id since) rows)))
unfolding get_daily_breakdown
get_daily_breakdown_lem user_id since d rows =
    let recent = keep (is_recent user_id since) rows in
    keep-map daily_item (is_day d) (order earlier (group ℕ_discrete day_of recent))
    ∙ ap (map daily_item) (keep-report ℕ_discrete earlier day_of d recent)
