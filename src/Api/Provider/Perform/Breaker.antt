-- ===== src/Api/Provider/Perform/Breaker.antt =====
-- The circuit breaker against what it promises: it counts failures while it is closed, and opens for a
-- while once there are enough.
use super_voice.Base.{ℕ, ◌+◌, ◌≤◌, ◌<◌, ◌≡◌, Bool, true, false, arith, ltb, ◌==◌, if◌then◌else◌}
use super_voice.Api.Provider.{ProviderConfig}
use super_voice.Api.Provider.Perform.{CircuitBreakerState, admit, record_failure, record_success}

-- Closed, after a number of failures, or open until a time.
pub data Circuit : Type 0 where
  closed : ℕ → Circuit
  open_till : ℕ → Circuit

module _ (config : ProviderConfig) where
  abbrev pub threshold : ℕ
  threshold = config.circuit_breaker_threshold

  abbrev pub allow : ℕ → Circuit → Bool × Circuit
  allow now (closed n) = (true, closed n)
  allow now (open_till t) = if ltb now t then (false, open_till t) else (true, closed 0)

  -- A call that fails while the circuit is open was let in before, and opens it anew.
  abbrev pub fail : ℕ → Circuit → Circuit
  fail now (closed n) =
      if ltb (n + 1) threshold
      then closed (n + 1)
      else open_till (now + config.circuit_breaker_cooldown)
  fail now (open_till t) = open_till (now + config.circuit_breaker_cooldown)

  abbrev pub succeed : Circuit → Circuit
  succeed c = closed 0

  -- What the state stands for.
  abbrev pub circuit_of : CircuitBreakerState → Circuit
  circuit_of b = if b.open_until == 0 then closed b.failures else open_till b.open_until

  -- Open exactly if there were enough failures.
  pub record IsValid (b : CircuitBreakerState) : Type 0 where
    pub closed_below : b.open_until ≡ 0 → b.failures < threshold
    pub open_above : 0 < b.open_until → threshold ≤ b.failures

  -- With a positive threshold, a valid breaker does what the circuit does, and stays valid: a call is let
  -- in exactly if the circuit lets it in, a failure at a positive time and a success are its own, and in
  -- each case the new state stands for the new circuit.
  pub circuit_refines :
      (now : ℕ) (b : CircuitBreakerState)
      → 0 < threshold
      → 0 < now
      → IsValid b
      → (((admit now b).0 ≡ (allow now (circuit_of b)).0)
          × (circuit_of (admit now b).1 ≡ (allow now (circuit_of b)).1)
          × IsValid (admit now b).1)
        × ((circuit_of (record_failure config now b) ≡ fail now (circuit_of b))
            × IsValid (record_failure config now b))
        × ((circuit_of (record_success b) ≡ succeed (circuit_of b)) × IsValid (record_success b))
  unfolding admit record_failure record_success
  circuit_refines now b some_failures later v = (
    (ground arith, ground arith, ground arith),
    (ground arith, ground arith),
    (ground arith, ground arith),
  )
