-- ===== src/Broker/Memories.antt =====
-- A request that names a memory which is not approved.
use skill_kernel.Base.{
  ℕ, String, Bool, true, false, List, [], ◌∷◌, Option, none, some, ◌≡◌, refl, ap, inl, inr, In,
  All-In, find?, find?-eq-none, is_empty, is_blank, strip, In-distinct_from, ==_iff, Option-cases,
}
use skill_kernel.Jobs.Enqueue.{or_else}
use skill_kernel.Evaluator.Runtime.{Runtime}
use skill_kernel.Broker.Types.{
  Formats, BrokerPolicy, ContextHintRequest, no_skill, ContextHintResponse, policy_response,
}
use skill_kernel.Broker.Select.{is_same_id}
use skill_kernel.Broker.Cache.{CachedContextHint}
use skill_kernel.Broker.Hint.{
  Call, record_memory_block, Stores, memory_ids, is_unapproved, validate_memory_influence,
}
use skill_kernel.Broker.Serve.{build_context_hint}

-- No governance store vouches for the memory.
abbrev pub is_unvouched : Option (ℕ → Option String) → ℕ → Bool
is_unvouched none i = true
is_unvouched (some status) i = is_unapproved status i

-- The response that refuses the request for a reason, with nothing retrieved or rendered.
abbrev pub refusal : BrokerPolicy → String → String → ContextHintResponse
refusal policy status reason = record (policy_response policy no_skill status) {
  reason_codes = reason ∷ [];
}

-- Refused without a governance store, or refused by it, which is recorded.
abbrev pub IsRefused :
    Option (ℕ → Option String) → BrokerPolicy → ContextHintResponse → List Call → Type 0
IsRefused none policy res calls =
    (res ≡ refusal policy "memory-governance-unavailable" "memory-governance-unavailable")
    × (calls ≡ [])
IsRefused (some status) policy res calls =
    (res ≡ refusal policy "memory-influence-blocked" "memory-influence-not-approved")
    × (calls ≡ record_memory_block ∷ [])

named :
    (request : ContextHintRequest) (i : ℕ)
    → In i request.memory_influence_ids
    → In i (memory_ids request)
named request i m = In-distinct_from is_same_id ==_iff i [] request.memory_influence_ids m refl

In-filled {ℓ} : {A : Type ℓ} (a : A) (xs : List A) → In a xs → is_empty xs ≡ false
In-filled a [] m = elim m [ ]
In-filled a (x ∷ xs) m = refl

validate-unvouched :
    (memory : Option (ℕ → Option String)) (request : ContextHintRequest) (policy : BrokerPolicy)
    (i : ℕ)
    → In i request.memory_influence_ids
    → is_unvouched memory i ≡ true
    → (blocked : ContextHintResponse × List Call) × (validate_memory_influence memory request policy
        ≡ some blocked)
      × IsRefused memory policy blocked.0 blocked.1
unfolding validate_memory_influence
validate-unvouched none request policy i m h =
    let filled = In-filled i (memory_ids request) (named request i m) in
    rw (filled, validate_memory_influence) (_, refl, (refl, refl))
validate-unvouched (some status) request policy i m h =
    let filled = In-filled i (memory_ids request) (named request i m) in
    elim (Option-cases (find? (is_unapproved status) (memory_ids request))) [
      | inl e ↦
          let f : is_unapproved status i ≡ false =
            All-In (λ i. is_unapproved status i ≡ false) (named request i m)
              (find?-eq-none (is_unapproved status) (memory_ids request) e) in
          cc
      | inr s ↦ rw (filled, s.1, validate_memory_influence) (_, refl, (refl, refl))
    ]

-- A refusal retrieves and renders nothing.
refused-empty :
    (memory : Option (ℕ → Option String)) (policy : BrokerPolicy) (res : ContextHintResponse)
    (calls : List Call)
    → IsRefused memory policy res calls
    → (res.skill_ids ≡ []) × (res.hint ≡ "") × (res.retrieval_log_id ≡ none)
unfolding policy_response
refused-empty none policy res calls (e, _) =
    (ap (λ r. r.skill_ids) e, ap (λ r. r.hint) e, ap (λ r. r.retrieval_log_id) e)
refused-empty (some status) policy res calls (e, _) =
    (ap (λ r. r.skill_ids) e, ap (λ r. r.hint) e, ap (λ r. r.retrieval_log_id) e)

-- A request with an intent that names a memory which the governance store has not approved, or
-- which is asked without such a store, is refused: whatever the cache holds and the other stores
-- answer, the response is the refusal, which names no skill, has no hint and no log of a retrieval;
-- the one call made is the record of the block, and there is none without a store; and the cache
-- stays as it is.
pub build_context_hint-memory :
    (rt : Runtime) (formats : Formats) (stores : Stores) (policy : BrokerPolicy)
    (ttl_seconds now_get now_set : ℕ) (request : ContextHintRequest)
    (cache : Option (List CachedContextHint)) (i : ℕ)
    → is_blank (strip (or_else request.user_intent "")) ≡ false
    → In i request.memory_influence_ids
    → is_unvouched stores.memory_status i ≡ true
    → let served =
        build_context_hint rt formats stores policy ttl_seconds now_get now_set request cache in
      IsRefused stores.memory_status policy served.response served.calls
      × (served.response.skill_ids ≡ [])
      × (served.response.hint ≡ "")
      × (served.response.retrieval_log_id ≡ none)
      × (served.cache ≡ cache)
unfolding build_context_hint
build_context_hint-memory rt formats stores policy ttl_seconds now_get now_set request cache i asked
      m h =
    let (blocked, e, refused) = validate-unvouched stores.memory_status request policy i m h in
    let (named_none, unhinted, unlogged) =
      refused-empty stores.memory_status policy blocked.0 blocked.1 refused in
    rw (asked, e, build_context_hint) (refused, named_none, unhinted, unlogged, refl)
