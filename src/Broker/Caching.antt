-- ===== src/Broker/Caching.antt =====
-- What the cache gives back.
use skill_kernel.Base.{
  ℕ, str_eq_iff, true, false, List, [], ◌∷◌, ◌++◌, Option, none, some, ◌≡◌, refl, sym, ap, ◌∙◌, inl,
  inr, ◌+◌, leb, arith, if◌then◌else◌, find?, find?-append-none, Bool-cases, Option-cases,
}
use skill_kernel.Broker.Types.{ContextHintResponse}
use skill_kernel.Broker.Cache.{
  CacheKey, CachedContextHint, same_key, is_under, pop, with_status, cache_get, cache_set,
}

same_key→eq : (a b : CacheKey) → same_key a b ≡ true → a ≡ b
unfolding same_key
same_key→eq a b h = ground (
  arith,
  str_eq_iff a.workspace_id b.workspace_id,
  str_eq_iff a.executor_profile_id b.executor_profile_id,
  str_eq_iff a.query b.query,
  str_eq_iff a.policy_key b.policy_key,
)

same_key_refl : (a : CacheKey) → same_key a a ≡ true
unfolding same_key
same_key_refl a = ground (
  arith,
  str_eq_iff a.workspace_id a.workspace_id,
  str_eq_iff a.executor_profile_id a.executor_profile_id,
  str_eq_iff a.query a.query,
  str_eq_iff a.policy_key a.policy_key,
)

popped_none : (k : CacheKey) (es : List CachedContextHint) → find? (is_under k) (pop k es) ≡ none
popped_none k [] = refl
popped_none k (e ∷ es) = elim (Bool-cases (is_under k e)) [
  | inl same ↦ rw same (popped_none k es)
  | inr other ↦ rw (other, other) (popped_none k es)
]

-- Under another key, the entries are found as before.
find?-popped :
    (j k : CacheKey) (new : CachedContextHint) (es : List CachedContextHint)
    → same_key j k ≡ false
    → new.key_of ≡ k
    → find? (is_under j) (pop k es ++ new ∷ []) ≡ find? (is_under j) es
find?-popped j k new [] h of_k =
    let f : is_under j new ≡ false = ap (same_key j) of_k ∙ h in rw f refl
find?-popped j k new (e ∷ es) h of_k = elim (Bool-cases (is_under k e)) [
  | inl same ↦
      let f : is_under j e ≡ false = ap (same_key j) (sym (same_key→eq k e.key_of same)) ∙ h in
      rw (same, f) (find?-popped j k new es h of_k)
  | inr other ↦ elim (Bool-cases (is_under j e)) [
    | inl mine ↦ rw (other, mine) refl
    | inr foreign ↦ rw (other, foreign) (find?-popped j k new es h of_k)
  ]
]

-- What an entry that was found gives.
abbrev given : ℕ → Option CachedContextHint → Option ContextHintResponse
given now none = none
given now (some e) =
    if leb e.expires_at now then none else some (with_status "cache-hit" e.response)

cache_get-given :
    (now : ℕ) (k : CacheKey) (es : List CachedContextHint)
    → (cache_get now k es).0 ≡ given now (find? (is_under k) es)
unfolding cache_get
cache_get-given now k es = elim (Option-cases (find? (is_under k) es)) [
  | inl e ↦ rw (e, cache_get) refl
  | inr s ↦ elim (Bool-cases (leb s.0.expires_at now)) [
    | inl expired ↦ rw (s.1, expired, cache_get) refl
    | inr current ↦ rw (s.1, current, cache_get) refl
  ]
]

-- What was set under a key is got under it until `ttl_seconds` have passed, marked as a hit, and
-- then no more; under another key the cache answers as before.
pub cache_get-cache_set :
    (ttl_seconds now later : ℕ) (k j : CacheKey) (res : ContextHintResponse)
    (entries : List CachedContextHint)
    → (cache_get later j (cache_set ttl_seconds now k res entries)).0 ≡ (
        if same_key j k
        then (if leb (now + ttl_seconds) later then none else some (with_status "cache-hit" res))
        else (cache_get later j entries).0)
unfolding cache_set
cache_get-cache_set ttl_seconds now later k j res entries =
    let new : CachedContextHint = record {
      key_of = k;
      expires_at = now + ttl_seconds;
      response = with_status "cache-fill" res;
    } in
    elim (Bool-cases (same_key j k)) [
      | inl same ↦
          let e : find? (is_under k) (pop k entries ++ new ∷ []) ≡ some new =
            find?-append-none (is_under k) (pop k entries) (new ∷ []) (popped_none k entries)
            ∙ rw (same_key_refl k) refl in
          rw same (
            cache_get-given later j (pop k entries ++ new ∷ [])
            ∙ ap (λ i. given later (find? (is_under i) (pop k entries ++ new ∷ [])))
                (same_key→eq j k same)
            ∙ ap (given later) e)
      | inr other ↦ rw other (
          cache_get-given later j (pop k entries ++ new ∷ [])
          ∙ ap (given later) (find?-popped j k new entries other refl)
          ∙ sym (cache_get-given later j entries))
    ]
