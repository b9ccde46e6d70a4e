-- ===== src/Api/Provider/Perform/Attempts.antt =====
-- How much a call sends and waits, and that it has a result.
use super_voice.Base.{
  ℕ, zero, suc, ◌+◌, ◌-◌, ◌*◌, ◌^◌, ◌≤◌, ◌<◌, ◌≡◌, refl, ◌⊎◌, inl, inr, none, some, List, [], ◌∷◌,
  arith, length, ltb, leb, ◌&&◌, true, Bool-cases, Option-cases,
}
use super_voice.Api.Provider.{
  ProviderOperation, RequestContext, ProviderError, Library, Response, Usage, extract_usage,
  compute_backoff, make_circuit_open_error,
}
use super_voice.Api.Provider.Perform.{
  CircuitBreakerState, ProviderResult, JsonOperationResult, Request, Verdict, succeeded, stops,
  again, throws, Ending, success, failure, undefined, thrown, Sent, Provider, Surroundings,
  Performed, admit, verdict, send_loop, settle, check_config, Ready, refused, ready, make_request,
  perform_http_request,
}

abbrev pub total : List ℕ → ℕ
total [] = 0
total (x ∷ xs) = x + total xs

compute_backoff_le :
    (base max attempt jitter delay : ℕ)
    → compute_backoff base max attempt jitter ≡ some delay
    → delay ≤ max
unfolding compute_backoff
compute_backoff_le base max attempt jitter delay e = ground arith

Verdict-cases :
    {Value Double : Type 0} (v : Verdict Value Double)
    → ((r : JsonOperationResult Value) × (v ≡ succeeded r))
      ⊎ (((e : ProviderError Double) × (v ≡ stops e))
          ⊎ (((e : ProviderError Double) × (v ≡ again e)) ⊎ (v ≡ throws)))
Verdict-cases (succeeded r) = inl (r, refl)
Verdict-cases (stops e) = inr (inl (e, refl))
Verdict-cases (again e) = inr (inr (inl (e, refl)))
Verdict-cases throws = inr (inr (inr refl))

-- What the loop keeps to, with `left` attempts after the first.
pub record Bounded {Value Header Double : Type 0} (left max : ℕ) (s : Sent Value Header Double)
    : Type 0 where
  pub some_request : 0 < length s.requests
  pub few : length s.requests ≤ left + 1
  pub between : length s.delays + 1 ≡ length s.requests
  pub waits : total s.delays ≤ left * max

module _ {Value Header Double : Type 0} (lib : Library Value Header Double)
    (self : Provider Value Header) (env : Surroundings Header) (context : RequestContext) where
  alone :
      {request : Request Header} {ending : Ending Value Double} (left : ℕ)
      → Bounded left self.config.max_backoff
          (record { requests = request ∷ []; delays = []; ending = ending })
  alone left = record {
    some_request = omega arith;
    few = omega arith;
    between = omega arith;
    waits = omega arith;
  }

  abbrev max_wait : ℕ
  max_wait = self.config.max_backoff

  send_loop-Bounded :
      (request : Request Header) (left attempt : ℕ)
      → Bounded left max_wait (send_loop lib self env context request left attempt)
  unfolding send_loop
  send_loop-Bounded request zero attempt =
      elim (Verdict-cases (verdict lib self context (env.answers attempt))) [
        | inl (r, e) ↦ rw (e, send_loop) (alone 0)
        | inr (inl (x, e)) ↦ rw (e, send_loop) (alone 0)
        | inr (inr (inl (x, e))) ↦ rw (e, send_loop) (alone 0)
        | inr (inr (inr e)) ↦ rw (e, send_loop) (alone 0)
      ]
  send_loop-Bounded request (suc left) attempt =
      elim (Verdict-cases (verdict lib self context (env.answers attempt))) [
        | inl (r, e) ↦ rw (e, send_loop) (alone (suc left))
        | inr (inl (x, e)) ↦ rw (e, send_loop) (alone (suc left))
        | inr (inr (inr e)) ↦ rw (e, send_loop) (alone (suc left))
        | inr (inr (inl (x, e))) ↦
            elim (Option-cases
              (compute_backoff self.config.base_backoff max_wait attempt (env.jitter attempt))) [
                | inl undefined_delay ↦ rw (e, undefined_delay, send_loop) (alone (suc left))
                | inr (delay, waited) ↦
                    rw (e, waited, send_loop)
                      (let rest = send_loop-Bounded request left (attempt + 1) in
                        let bound =
                          compute_backoff_le self.config.base_backoff max_wait attempt
                            (env.jitter attempt) delay waited in
                        record {
                          some_request = omega arith;
                          few = omega (arith, rest.few);
                          between = omega (arith, rest.between);
                          waits = grind (arith, rest.waits, bound);
                        })
              ]
      ]

  -- The delays that a call may compute fit 64 bits with a sign, and the base 32.
  abbrev pub Fits : Type 0
  Fits =
      (i : ℕ)
      → i < self.config.max_retries
      → (i < 63) × (self.config.base_backoff * 2 ^ i < 2 ^ 63) × (self.config.base_backoff < 2 ^ 31)

  -- The status is 2xx.
  abbrev pub Fine : Response Header → Type 0
  Fine response = (leb 200 response.status_code && ltb response.status_code 300) ≡ true

  -- The usage of every payload that comes back with a status 2xx can be read.
  abbrev pub Readable : Type 0
  Readable =
      (i : ℕ) (payload : Value)
      → Fine (env.answers i)
      → lib.parse_json (env.answers i).body ≡ some payload
      → (u : Usage) × (extract_usage lib payload ≡ some u)

  abbrev Decided : Ending Value Double → Type 0
  Decided (success r) = Unit
  Decided (failure e) = Unit
  Decided undefined = ⊥
  Decided thrown = ⊥

  -- Exactly one of the two is there.
  abbrev pub OneOf : {T : Type 0} → ProviderResult T Double → Type 0
  OneOf {T} r =
      ((d : T) × (r.data_ ≡ some d) × (r.error ≡ none))
      ⊎ ((e : ProviderError Double) × (r.data_ ≡ none) × (r.error ≡ some e))

  abbrev pub Settled : Performed Value Header Double → Type 0
  Settled p =
      (r : ProviderResult (JsonOperationResult Value) Double) × (p.result ≡ some r) × OneOf r

  settle_keeps :
      (b : CircuitBreakerState) (s : Sent Value Header Double)
      → ((settle lib self env b s).requests ≡ s.requests)
        × ((settle lib self env b s).delays ≡ s.delays)
  unfolding settle
  settle_keeps b s = by_ending s.ending refl
    where
      by_ending :
          (x : Ending Value Double)
          → s.ending ≡ x
          → ((settle lib self env b s).requests ≡ s.requests)
            × ((settle lib self env b s).delays ≡ s.delays)
      by_ending (success r) e = (rw (e, settle) refl, rw (e, settle) refl)
      by_ending (failure x) e = (rw (e, settle) refl, rw (e, settle) refl)
      by_ending undefined e = (rw (e, settle) refl, rw (e, settle) refl)
      by_ending thrown e = (rw (e, settle) refl, rw (e, settle) refl)

  -- A call that was refused before it sent, or one that sent.
  abbrev Refused : Performed Value Header Double → Type 0
  Refused p =
      (e : ProviderError Double) × (p.result ≡ some (record { data_ = none; error = some e }))
      × (p.requests ≡ [])
      × (p.delays ≡ [])

  abbrev Sending : Performed Value Header Double → Type 0
  Sending p =
      (b : CircuitBreakerState) × (request : Request Header) × (p
        ≡ settle lib self env b (send_loop lib self env context request self.config.max_retries 0))

  perform_cases :
      (operation : ProviderOperation) (payload : Value) (resource_id : List ℕ)
      (b : CircuitBreakerState)
      → let p = perform_http_request lib self env operation payload context resource_id b in
        Refused p ⊎ Sending p
  unfolding perform_http_request
  perform_cases operation payload resource_id b = by_check (check_config lib self env context) refl
    where
      by_check :
          (x : Ready lib self)
          → check_config lib self env context ≡ x
          → let p = perform_http_request lib self env operation payload context resource_id b in
            Refused p ⊎ Sending p
      by_check (refused e) h = inl (
        e,
        rw (h, perform_http_request) refl,
        rw (h, perform_http_request) refl,
        rw (h, perform_http_request) refl,
      )
      by_check (ready key) h = elim (Bool-cases (admit env.now b).0) [
        | inl on ↦ inr (
          env.others (admit env.now b).1,
          make_request lib self env operation payload context resource_id key,
          rw (h, on, perform_http_request) refl,
        )
        | inr off ↦ inl (
          make_circuit_open_error lib self.config context,
          rw (h, off, perform_http_request) refl,
          rw (h, off, perform_http_request) refl,
          rw (h, off, perform_http_request) refl,
        )
      ]

  -- A call sends at most `max_retries` + 1 requests, waits once between two of them, and waits no longer
  -- than `max_retries` times `max_backoff` in all.
  pub perform_http_request_bounds :
      (operation : ProviderOperation) (payload : Value) (resource_id : List ℕ)
      (b : CircuitBreakerState)
      → let p = perform_http_request lib self env operation payload context resource_id b in
        (length p.requests ≤ self.config.max_retries + 1)
        × (length p.delays ≡ length p.requests - 1)
        × (total p.delays ≤ self.config.max_retries * self.config.max_backoff)
  perform_http_request_bounds operation payload resource_id b =
      elim (perform_cases operation payload resource_id b) [
        | inl (_, _, sent, waited) ↦ rw (sent, waited) (omega arith)
        | inr (breaker, request, same) ↦
            (let s = send_loop lib self env context request self.config.max_retries 0 in
              let bounded = send_loop-Bounded request self.config.max_retries 0 in
              let kept = settle_keeps breaker s in
              rw (same, kept.0, kept.1)
                (bounded.few, omega (arith, bounded.between), bounded.waits))
      ]
