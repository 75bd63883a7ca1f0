-- ===== src/Services/Usage/Groups.antt =====
-- What grouping and ordering do to the rows of one key.
use ultimate_assistant_ai_ga.Base.{
  ℕ, suc, ◌≤◌, ◌≡◌, refl, ◌∙◌, Bool, true, false, List, [], ◌∷◌, keep, ite, if_pos, if_neg, arith,
  length, Bool-cases, inl, inr, ltb,
}
use ultimate_assistant_ai_ga.Base.Lists.{All}
use ultimate_assistant_ai_ga.Db.{Usage}
use ultimate_assistant_ai_ga.Services.Usage.{
  UsageRow, Group, add_row, group, insert_sorted, order, sum_of,
}

module _ {K : Type 0} (dec : Discrete K) (k : K) where
  abbrev pub has_key : Group K → Bool
  has_key g = ite (dec g.key k) true false

  abbrev pub row_has_key : (UsageRow → K) → UsageRow → Bool
  row_has_key key r = ite (dec (key r) k) true false

  -- The group of some rows, none where there are none: counted and added up row by row.
  abbrev pub described : List UsageRow → List (Group K)
  described [] = []
  described (r ∷ rows) =
      record {
        key = k;
        requests = length (r ∷ rows);
        input_tokens = sum_of (λ x. x.usage.input_tokens) (r ∷ rows);
        output_tokens = sum_of (λ x. x.usage.output_tokens) (r ∷ rows);
        cost = sum_of (λ x. x.usage.estimated_cost_usd) (r ∷ rows);
        latency = sum_of (λ x. x.usage.latency_ms) (r ∷ rows);
      }
      ∷ []

  keep-add_row_other :
      (j : K) (u : Usage) (gs : List (Group K))
      → ¬ (j ≡ k)
      → keep has_key (add_row dec j u gs) ≡ keep has_key gs
  unfolding add_row
  keep-add_row_other j u [] n = ground arith
  keep-add_row_other j u (g ∷ gs) n = ground (arith, keep-add_row_other j u gs n)

  keep-add_row :
      (u : Usage) (gs : List (Group K))
      → keep has_key (add_row dec k u gs) ≡ add_row dec k u (keep has_key gs)
  unfolding add_row
  keep-add_row u [] = ground arith
  keep-add_row u (g ∷ gs) = ground (arith, keep-add_row u gs)

  add_row-described :
      (r : UsageRow) (rows : List UsageRow)
      → add_row dec k r.usage (described rows) ≡ described (r ∷ rows)
  unfolding add_row
  add_row-described r [] = ground arith
  add_row-described r (s ∷ rows) = ground arith

  pub keep-group :
      (key : UsageRow → K) (rows : List UsageRow)
      → keep has_key (group dec key rows) ≡ described (keep (row_has_key key) rows)
  unfolding group
  keep-group key [] = refl
  keep-group key (r ∷ rows) = elim (dec (key r) k) [
    | yes e ↦
        rw
          (
            if_pos (dec (key r) k) e,
            e,
            keep-add_row r.usage (group dec key rows),
            keep-group key rows,
          )
          (add_row-described r (keep (row_has_key key) rows))
    | no n ↦
        rw
          (
            if_neg (dec (key r) k) n,
            keep-add_row_other (key r) r.usage (group dec key rows) n,
            keep-group key rows,
          )
          refl
  ]

length-zero : {A : Type 0} (xs : List A) → length xs ≤ 0 → xs ≡ []
length-zero [] h = refl
length-zero (x ∷ xs) h = absurd (omega arith)

pub length-described :
    {K : Type 0} (dec : Discrete K) (k : K) (rows : List UsageRow)
    → length (described dec k rows) ≤ 1
length-described dec k [] = omega arith
length-described dec k (r ∷ rows) = omega arith

module _ {A : Type 0} (before : A → A → Bool) (p : A → Bool) where
  keep-insert_other :
      (g : A) (gs : List A) → p g ≡ false → keep p (insert_sorted before g gs) ≡ keep p gs
  unfolding insert_sorted
  keep-insert_other g [] n = rw n
  keep-insert_other g (h ∷ gs) n = ground (arith, keep-insert_other g gs n)

  keep-insert_only :
      (g : A) (gs : List A)
      → p g ≡ true
      → keep p gs ≡ []
      → keep p (insert_sorted before g gs) ≡ g ∷ []
  unfolding insert_sorted
  keep-insert_only g [] y e = rw y
  keep-insert_only g (h ∷ gs) y e = ground (arith, keep-insert_only g gs y)

  -- Ordering keeps the entries that pass a test which at most one of them passes.
  pub keep-order : (gs : List A) → length (keep p gs) ≤ 1 → keep p (order before gs) ≡ keep p gs
  unfolding order
  keep-order [] h = refl
  keep-order (g ∷ gs) h = elim (Bool-cases (p g)) [
    | inl y ↦
        let counted : suc (length (keep p gs)) ≤ 1 = rw y at h in
        let alone : keep p gs ≡ [] = length-zero (keep p gs) (omega arith) in
        rw (y, keep-insert_only g (order before gs) y (keep-order gs (omega arith) ∙ alone), alone)
          refl
    | inr n ↦
        let counted : length (keep p gs) ≤ 1 = rw n at h in
        rw (n, keep-insert_other g (order before gs) n) (keep-order gs counted)
  ]

All-insert :
    {A : Type 0} (before : A → A → Bool) (P : A → Type 0) (g : A) (gs : List A)
    → P g
    → All P gs
    → All P (insert_sorted before g gs)
unfolding insert_sorted
All-insert before P g [] pg h = (pg, tt)
All-insert before P g (x ∷ gs) pg h = elim (Bool-cases (before g x)) [
  | inl y ↦ rw y (pg, h)
  | inr n ↦ rw n (h.0, All-insert before P g gs pg h.1)
]

module _ {A : Type 0} (f : A → ℕ) where
  -- The largest first.
  abbrev pub Descending : List A → Type 0
  Descending [] = Unit
  Descending (g ∷ gs) = All (λ h. f h ≤ f g) gs × Descending gs

  abbrev larger : A → A → Bool
  larger g h = ltb (f h) (f g)

  All-le : (m n : ℕ) (gs : List A) → m ≤ n → All (λ h. f h ≤ m) gs → All (λ h. f h ≤ n) gs
  All-le m n [] le h = tt
  All-le m n (g ∷ gs) le h = (omega arith, All-le m n gs le h.1)

  insert-Descending : (g : A) (gs : List A) → Descending gs → Descending (insert_sorted larger g gs)
  unfolding insert_sorted
  insert-Descending g [] d = (tt, tt)
  insert-Descending g (x ∷ gs) d = elim (Bool-cases (larger g x)) [
    | inl y ↦ let le : f x ≤ f g = ground arith in rw y ((le, All-le (f x) (f g) gs le d.0), d)
    | inr n ↦
        let le : f g ≤ f x = ground arith in
        rw n (All-insert larger (λ h. f h ≤ f x) g gs le d.0, insert-Descending g gs d.1)
  ]

  pub order-Descending : (gs : List A) → Descending (order larger gs)
  unfolding order
  order-Descending [] = tt
  order-Descending (g ∷ gs) = insert-Descending g (order larger gs) (order-Descending gs)
