-- ===== src/Services/Ranker/Order.antt =====
-- The order that `rank` makes.
use ultimate_assistant_ai_ga.Base.{
  ℕ, ◌≤◌, ◌≡◌, refl, ap, sym, subst, ◌∙◌, false, List, [], ◌∷◌, map, arith, leb, length, inl, inr,
  Bool-cases,
}
use mathlib.Core.List.{Perm}
use mathlib.Core.List.Perm
use ultimate_assistant_ai_ga.Base.Lists.{All}
use ultimate_assistant_ai_ga.Redis.{Redis}
use ultimate_assistant_ai_ga.Providers.Capabilities.{Candidate}
use ultimate_assistant_ai_ga.Services.Ranker.{
  Rounding, Scored, place, sort, score_of, scored, rank, provider_ranker,
}
use ultimate_assistant_ai_ga.Base.Action.{ok-injective}
use ultimate_assistant_ai_ga.Services.Interfaces.{RankerLaws}

abbrev names : List Scored → List Candidate
names = map (λ x. x.candidate)

-- None of a list's members has a smaller value than one before it.
abbrev pub Ranked : (Candidate → ℕ) → List Candidate → Type 0
Ranked f [] = Unit
Ranked f (c ∷ cs) = All (λ d. f c ≤ f d) cs × Ranked f cs

module _ (f : Candidate → ℕ) where
  -- each score is the value of its candidate
  abbrev Fits : List Scored → Type 0
  Fits = All (λ x. x.score ≡ f x.candidate)

  place-All :
      (Q : Candidate → Type 0) (x : Scored) (ys : List Scored)
      → Q x.candidate
      → All Q (names ys)
      → All Q (names (place x ys))
  unfolding place
  place-All Q x [] q h = (q, tt)
  place-All Q x (y ∷ ys) q h = elim (Bool-cases (leb x.score y.score)) [
    | inl before ↦ rw before (q, h)
    | inr after ↦ rw after (h.0, place-All Q x ys q h.1)
  ]

  below-All :
      (n m : ℕ) (cs : List Candidate) → n ≤ m → All (λ d. m ≤ f d) cs → All (λ d. n ≤ f d) cs
  below-All n m [] h a = tt
  below-All n m (c ∷ cs) h a = (omega (arith, a.0), below-All n m cs h a.1)

  place-Ranked :
      (x : Scored) (ys : List Scored)
      → x.score ≡ f x.candidate
      → Fits ys
      → Ranked f (names ys)
      → Ranked f (names (place x ys))
  unfolding place
  place-Ranked x [] e fits r = (tt, tt)
  place-Ranked x (y ∷ ys) e fits r = elim (Bool-cases (leb x.score y.score)) [
    | inl before ↦
        let le : f x.candidate ≤ f y.candidate = ground (arith, fits.0) in
        rw before ((le, below-All (f x.candidate) (f y.candidate) (names ys) le r.0), r)
    | inr after ↦
        let le : f y.candidate ≤ f x.candidate = ground (arith, fits.0) in
        rw after (place-All (λ d. f y.candidate ≤ f d) x ys le r.0, place-Ranked x ys e fits.1 r.1)
  ]

  place-Fits :
      (x : Scored) (ys : List Scored) → x.score ≡ f x.candidate → Fits ys → Fits (place x ys)
  unfolding place
  place-Fits x [] e fits = (e, tt)
  place-Fits x (y ∷ ys) e fits = elim (Bool-cases (leb x.score y.score)) [
    | inl before ↦ rw before (e, fits)
    | inr after ↦ rw after (fits.0, place-Fits x ys e fits.1)
  ]

  sort-Ranked : (xs : List Scored) → Fits xs → Fits (sort xs) × Ranked f (names (sort xs))
  unfolding sort
  sort-Ranked [] fits = (tt, tt)
  sort-Ranked (x ∷ xs) fits =
      let (fit, ranked) = sort-Ranked xs fits.1 in
      (place-Fits x (sort xs) fits.0 fit, place-Ranked x (sort xs) fits.0 fit ranked)

  -- The head of a ranked list goes back to the front.
  place_first :
      (x : Scored) (ys : List Scored)
      → x.score ≡ f x.candidate
      → Fits ys
      → All (λ d. f x.candidate ≤ f d) (names ys)
      → place x ys ≡ x ∷ ys
  unfolding place
  place_first x [] e fits a = refl
  place_first x (y ∷ ys) e fits a = ground (arith, fits.0, a.0)

  sort_idle : (xs : List Scored) → Fits xs → Ranked f (names xs) → sort xs ≡ xs
  unfolding sort
  sort_idle [] fits r = refl
  sort_idle (x ∷ xs) fits r = rw (sort_idle xs fits.1 r.1) (place_first x xs fits.0 fits.1 r.0)

place-Perm : (x : Scored) (ys : List Scored) → Perm (names (place x ys)) (x.candidate ∷ names ys)
unfolding place
place-Perm x [] = Perm.rfl
place-Perm x (y ∷ ys) = elim (Bool-cases (leb x.score y.score)) [
  | inl before ↦ rw before Perm.rfl
  | inr after ↦ rw after (
      Perm.trans (Perm.cons y.candidate (place-Perm x ys))
        (Perm.swap x.candidate y.candidate (names ys)))
]

sort-Perm : (xs : List Scored) → Perm (names (sort xs)) (names xs)
unfolding sort
sort-Perm [] = Perm.rfl
sort-Perm (x ∷ xs) = Perm.trans (place-Perm x (sort xs)) (Perm.cons x.candidate (sort-Perm xs))

module _ {Store : Type 0} (r : Redis Store) (rounding : Rounding) (now : ℕ) (s : Store) where
  scored-Fits :
      (cs : List Candidate)
      → All (λ x. x.score ≡ score_of r rounding now s x.candidate) (scored r rounding now s cs)
  scored-Fits [] = tt
  scored-Fits (c ∷ cs) = (refl, scored-Fits cs)

  names-scored : (cs : List Candidate) → names (scored r rounding now s cs) ≡ cs
  names-scored [] = refl
  names-scored (c ∷ cs) = ap (◌∷◌ c) (names-scored cs)

  -- `rank` only reorders the candidates, puts them in ascending order of their scores, and leaves
  -- candidates that stand in that order, ties included, as they are.
  pub rank-Ranked :
      (cs : List Candidate)
      → let f = score_of r rounding now s in
        Perm (rank r rounding now s cs) cs
        × Ranked f (rank r rounding now s cs)
        × (Ranked f cs → rank r rounding now s cs ≡ cs)
  unfolding rank
  rank-Ranked [] = (Perm.rfl, tt, λ h. refl)
  rank-Ranked (c ∷ []) = (Perm.rfl, (tt, tt), λ h. refl)
  rank-Ranked (c ∷ d ∷ cs) =
      let l = c ∷ d ∷ cs in
      let f = score_of r rounding now s in
      let xs = scored r rounding now s l in
      let long : leb (length l) 1 ≡ false = ground arith in
      rw long (
        rw (names-scored l) at (sort-Perm xs),
        (sort-Ranked f xs (scored-Fits l)).1,
        λ h.
            ap names (sort_idle f xs (scored-Fits l) (subst (Ranked f) (sym (names-scored l)) h))
            ∙ names-scored l,
      )

sort-All : (Q : Candidate → Type 0) (xs : List Scored) → All Q (names xs) → All Q (names (sort xs))
unfolding sort
sort-All Q [] h = tt
sort-All Q (x ∷ xs) h = place-All (λ c. 0) Q x (sort xs) h.0 (sort-All Q xs h.1)

rank-All :
    {Store : Type 0} (r : Redis Store) (rounding : Rounding) (now : ℕ) (s : Store)
    (Q : Candidate → Type 0) (cs : List Candidate)
    → All Q cs
    → All Q (rank r rounding now s cs)
unfolding rank
rank-All r rounding now s Q cs h = elim (Bool-cases (leb (length cs) 1)) [
  | inl short ↦ rw short h
  | inr long ↦ rw long (
      sort-All Q (scored r rounding now s cs)
        (subst (All Q) (sym (names-scored r rounding now s cs)) h))
]

-- The ranker keeps the law that the router asks of a ranker.
pub provider_ranker-RankerLaws :
    {Store W : Type 0} (r : Redis Store) (rounding : Rounding) (clock : W → ℕ) (redis : W → Store)
    (write : Store → W → W)
    → RankerLaws (provider_ranker r rounding clock redis write)
provider_ranker-RankerLaws r rounding clock redis write = record {
  rank-All = λ Q cs cs' w h e.
      subst (All Q) (ok-injective e) (rank-All r rounding (clock w) (redis w) Q cs h);
}
