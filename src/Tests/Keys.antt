-- ===== src/Tests/Keys.antt =====
-- app/services/key_service.py on a cache that is a list and forgets nothing, and an encryption that
-- writes the key before the text.
use ultimate_assistant_ai_ga.Base.{
  String, true, false, Option, none, some, List, [], ◌∷◌, ◌≡◌, refl, ◌==◌, arith, inl, inr,
  Bool-cases, not, if◌then◌else◌, same, str_dec, if_pos, if_neg, any, map, sym, ◌∙◌, subst,
}
use ultimate_assistant_ai_ga.Base.Lists.{Holds}
use ultimate_assistant_ai_ga.Base.Text.{contains, is_empty}
use ultimate_assistant_ai_ga.Base.Action.{Result, ok, err, multiple_results, provider_key_missing}
use ultimate_assistant_ai_ga.Core.Encryption.{
  Fernet, encrypt_api_key, decrypt_api_key, master_keys, split_commas, stripped, lstrip, rstrip,
}
use ultimate_assistant_ai_ga.Services.Keys.{
  CacheKey, same_key, TtlCache, TtlCacheLaws, KeyState, add_key, delete_key, get_decrypted_key,
  load_key, get_by_user_and_provider, providers_of, distinct, get_user_providers,
  invalidate_user_cache, last_four,
}
use ultimate_assistant_ai_ga.Services.Keys.Coherence.{fetch}
use ultimate_assistant_ai_ga.Services.Keys.RoundTrip.{
  KeyRequest, run, new_row, Fits, get_decrypted_key-run, get_decrypted_key-add_key,
}
use ultimate_assistant_ai_ga.Services.Keys.Duplicate.{get_decrypted_key-duplicate}
use ultimate_assistant_ai_ga.Tests.Token.{spell, read, read-spell, same_self}

abbrev Entries : Type 0
Entries = List (CacheKey × String)

abbrev entry : CacheKey → Entries → Option String
entry k [] = none
entry k ((j, v) ∷ c) = if same_key j k then some v else entry k c

abbrev without : CacheKey → Entries → Entries
without k [] = []
without k ((j, v) ∷ c) = if same_key j k then without k c else (j, v) ∷ without k c

abbrev listed : TtlCache Entries
listed = record {
  get = λ now. entry;
  put = λ now k v c. (k, v) ∷ c;
  pop = without;
  entries = map (λ e. e.0);
}

entry-put :
    (k j : CacheKey) (v s : String) (c : Entries)
    → entry k ((j, v) ∷ c) ≡ some s
    → (if same_key j k then v ≡ s else entry k c ≡ some s)
entry-put k j v s c e = elim (Bool-cases (same_key j k)) [
  | inl b ↦ let x : some v ≡ some s = rw b at e in let y : v ≡ s = cc in rw b y
  | inr b ↦ let x : entry k c ≡ some s = rw b at e in rw b x
]

same_key-≡ : (j k : CacheKey) → same_key j k ≡ true → j ≡ k
same_key-≡ (u, p) (v, q) h = elim (Bool-cases (u == v)) [
  | inl a ↦ elim (str_dec p q) [
    | yes e ↦ let n : u ≡ v = grind arith in rw (n, e) refl
    | no x ↦
        let y : same p q ≡ true = rw a at h in
        let z : false ≡ true = rw (if_neg (str_dec p q) x) at y in cc
  ]
  | inr a ↦ let y : false ≡ true = rw a at h in cc
]

same_key_self : (k : CacheKey) → same_key k k ≡ true
same_key_self (u, p) = rw (same_self p) (grind arith)

entry-without :
    (k j : CacheKey) (c : Entries)
    → entry k (without j c) ≡ (if same_key j k then none else entry k c)
entry-without k j [] = elim (Bool-cases (same_key j k)) [ inl b ↦ rw b refl | inr b ↦ rw b refl ]
entry-without k j ((i, v) ∷ c) = elim (Bool-cases (same_key i j)) [
  | inl b ↦
      let e = same_key-≡ i j b in
      elim (Bool-cases (same_key j k)) [
        | inl d ↦ rw (b, d) (let g = entry-without k j c in rw d at g)
        | inr d ↦
            let d' : same_key i k ≡ false = rw e d in
            rw (b, d, d') (let g = entry-without k j c in rw d at g)
      ]
  | inr b ↦ elim (Bool-cases (same_key i k)) [
    | inl d ↦ elim (Bool-cases (same_key j k)) [
      | inl f ↦
          let x : i ≡ j = same_key-≡ i k d ∙ sym (same_key-≡ j k f) in
          let y : same_key i j ≡ true = subst (λ z. same_key i z ≡ true) x (same_key_self i) in
          let z : true ≡ false = sym y ∙ b in cc
      | inr f ↦ rw (b, d, f) refl
    ]
    | inr d ↦ rw (b, d) (entry-without k j c)
  ]
]

entry-listed :
    (k : CacheKey) (s : String) (c : Entries)
    → entry k c ≡ some s
    → any (λ j. same_key j k) (map (λ (e : CacheKey × String). e.0) c) ≡ true
entry-listed k s [] e = cc
entry-listed k s ((j, v) ∷ c) e = elim (Bool-cases (same_key j k)) [
  | inl b ↦ rw b refl
  | inr b ↦ rw b (entry-listed k s c (rw b at e))
]

listed-TtlCacheLaws : TtlCacheLaws listed
listed-TtlCacheLaws = record {
  get-put = λ n m k j v s c. entry-put k j v s c;
  get-pop = λ n k j c. entry-without k j c;
  entries-get = λ n k s c. entry-listed k s c;
}

abbrev opened : List String → Option (String × String) → Option String
opened keys none = none
opened keys (some (k, s)) = if contains k keys then some s else none

contains-Holds : (k : String) (keys : List String) → Holds k keys → contains k keys ≡ true
contains-Holds k [] h = elim h [ ]
contains-Holds k (j ∷ keys) (inl e) = rw (if_pos (str_dec k j) e) refl
contains-Holds k (j ∷ keys) (inr h) = elim (str_dec k j) [
  | yes e ↦ rw (if_pos (str_dec k j) e) refl
  | no n ↦ rw (if_neg (str_dec k j) n) (contains-Holds k keys h)
]

abbrev tagged : Fernet
tagged = record {
  is_key = λ k. not (is_empty k);
  encrypt = λ k ks n s. spell k s;
  decrypt = λ keys c. opened keys (read c);
  decrypt-encrypt =
      λ k ks keys n s first valid h. rw (read-spell k s, contains-Holds k keys h) refl;
}

abbrev master : Result (String × List String)
master = ok ("new", "old" ∷ [])

abbrev blank : KeyState Entries
blank = record { keys = []; cached = []; drawn = 0 }

-- one user adds two keys, uses one, and deletes it; another uses the same provider
abbrev requests : List KeyRequest
requests =
    KeyRequest.add 1 "openai" "sk-12345" "default"
    ∷ KeyRequest.add 2 "openai" "sk-other" "default"
    ∷ KeyRequest.get 0 1 "openai"
    ∷ KeyRequest.get 0 2 "openai"
    ∷ KeyRequest.delete 1 1
    ∷ []

program : Unit {0}
unfolding str_dec add_key delete_key get_decrypted_key load_key get_by_user_and_provider
    providers_of distinct get_user_providers invalidate_user_cache last_four encrypt_api_key
    decrypt_api_key
program = tt

keys_read : master_keys (λ c. c == 32) " new, ,old" ≡ ok ("new", "old" ∷ [])
unfolding master_keys split_commas stripped lstrip rstrip
keys_read = refl

own_key :
    (get_decrypted_key listed tagged master 0 2 "openai"
      (run listed tagged master requests blank)).0
    ≡ ok "sk-other"
unfolding program
own_key = refl

deleted_key :
    (get_decrypted_key listed tagged master 0 1 "openai"
      (run listed tagged master requests blank)).0
    ≡ err (provider_key_missing "openai")
unfolding program
deleted_key = refl

get_decrypted_key-run_example :
    (get_decrypted_key listed tagged master 0 1 "openai"
      (run listed tagged master requests blank)).0
    ≡ fetch tagged master (run listed tagged master requests blank).keys 1 "openai"
get_decrypted_key-run_example =
    get_decrypted_key-run listed tagged master listed-TtlCacheLaws requests blank 0 1 "openai"
      (λ n k. refl)

abbrev old : String
old = "old"

abbrev new : String
new = "new"

held : Holds old (new ∷ old ∷ [])
held = inr (inl refl)

short : Fits "openai" "default" (spell "old" "sk-12345")
short = (omega arith, omega arith, ground arith)

abbrev fresh_state : KeyState Entries
fresh_state = record { keys = []; cached = ((1, "openai"), "stale") ∷ []; drawn = 4 }

no_row : get_by_user_and_provider 1 "openai" [] ≡ ok none
unfolding program
no_row = refl

get_decrypted_key-add_key_example :
    let (added, w') =
      add_key listed tagged (ok ("old", [])) 1 "openai" "sk-12345" "default" fresh_state in
    (added ≡ ok (new_row (spell "old" "sk-12345") 1 "openai" "sk-12345" "default" 4))
    × ((get_decrypted_key listed tagged (ok ("new", "old" ∷ [])) 9 1 "openai" w').0 ≡ ok "sk-12345")
get_decrypted_key-add_key_example =
    get_decrypted_key-add_key listed listed-TtlCacheLaws tagged "old" [] 1 "openai" "sk-12345"
      "default" fresh_state "new" ("old" ∷ []) 9 refl refl held short no_row

-- the first key, a use of it, and later the second key, a use of another provider, and another user's deletion
abbrev first_requests : List KeyRequest
first_requests = KeyRequest.add 1 "openai" "sk-first" "default" ∷ KeyRequest.get 0 1 "openai" ∷ []

abbrev later_requests : List KeyRequest
later_requests = KeyRequest.get 1 1 "fal" ∷ KeyRequest.delete 1 2 ∷ []

abbrev one_key : KeyState Entries
one_key = run listed tagged (ok ("old", [])) first_requests blank

one_row :
    get_by_user_and_provider 1 "openai" one_key.keys
    ≡ ok (some (new_row (spell "old" "sk-first") 1 "openai" "sk-first" "default" 0))
unfolding program
one_row = refl

short_second : Fits "openai" "default" (tagged.encrypt "old" [] one_key.drawn "sk-12345")
short_second = (omega arith, omega arith, ground arith)

get_decrypted_key-duplicate_example :
    let (added, w') =
      add_key listed tagged (ok ("old", [])) 1 "openai" "sk-12345" "default" one_key in
    (added ≡ ok (new_row (spell "old" "sk-12345") 1 "openai" "sk-12345" "default" one_key.drawn))
    × ((get_decrypted_key listed tagged
          (ok ("old", []))
          9
          1
          "openai"
          (run listed tagged (ok ("old", [])) later_requests w')).0
        ≡ err multiple_results)
get_decrypted_key-duplicate_example =
    get_decrypted_key-duplicate listed listed-TtlCacheLaws tagged "old" [] first_requests
      later_requests 9 1 "openai" "sk-12345" "default"
      (new_row (spell "old" "sk-first") 1 "openai" "sk-first" "default" 0) blank refl (λ n j. refl)
      short_second one_row (tt, (refl, tt))

after_requests :
    (get_user_providers listed tagged master 2 (run listed tagged master requests blank)).0
    ≡ ok ("openai" ∷ [])
unfolding program
after_requests = refl

openai_listed : contains "openai" ("openai" ∷ []) ≡ true
unfolding str_dec
openai_listed = refl
