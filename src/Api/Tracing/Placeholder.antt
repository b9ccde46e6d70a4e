-- ===== src/Api/Tracing/Placeholder.antt =====
-- What `resolveEnv` puts in the place of a variable.
use super_voice.Base.{
  ℕ, zero, suc, ◌<◌, ◌≡◌, ◌≢◌, refl, ◌∙◌, ap, Option, none, some, List, [], ◌∷◌, ◌++◌, arith,
  length, length-append, All,
}
use super_voice.Base.Map.{Map}
use super_voice.Api.Env.{split_at, get_env}
use super_voice.Api.Tracing.{
  split_pair, next_placeholder, put_before, or_fallback, resolve_loop, resolve_env, replacement,
}
use super_voice.Api.Tracing.Resolve.{Shrinks, next_placeholder-Shrinks}

-- More fuel than enough changes nothing.
resolve_loop_enough :
    (fuel more : ℕ) (env : Map (List ℕ)) (value : List ℕ)
    → length value < fuel
    → length value < more
    → resolve_loop fuel env value ≡ resolve_loop more env value
unfolding resolve_loop Shrinks
resolve_loop_enough zero more env value h k = absurd (omega (arith, h))
resolve_loop_enough (suc fuel) zero env value h k = absurd (omega (arith, k))
resolve_loop_enough (suc fuel) (suc more) env value h k =
    cases (resolve_loop_enough fuel more env) (next_placeholder value)
      (next_placeholder-Shrinks value)
  where
    cases :
        ((v : List ℕ)
          → length v < fuel
          → length v < more
          → resolve_loop fuel env v ≡ resolve_loop more env v)
        → (found : Option (List ℕ × (List ℕ × List ℕ))) → Shrinks (length value) found
        → ◌≡◌ {A = Option (List ℕ)}
            (elim found [
              | none ↦ some value
              | some (before, (expr, behind)) ↦
                  put_before (before ++ replacement env expr) (resolve_loop fuel env behind)
            ])
            (elim found [
              | none ↦ some value
              | some (before, (expr, behind)) ↦
                  put_before (before ++ replacement env expr) (resolve_loop more env behind)
            ])
    cases ih none less = refl
    cases ih (some (before, (expr, behind))) less =
        ap (put_before (before ++ replacement env expr))
          (ih behind (omega (arith, h, less)) (omega (arith, k, less)))

-- A search passes over what has no first byte of the pair.
split_pair-append :
    (a b : ℕ) (xs ys : List ℕ)
    → All (λ c. c ≢ a) xs
    → split_pair a b (xs ++ (a ∷ b ∷ ys)) ≡ some (xs, ys)
unfolding split_pair
split_pair-append a b [] ys h = ground arith
split_pair-append a b (x ∷ xs) ys h = ground (arith, h.0, split_pair-append a b xs ys h.1)

split_at-append :
    (c : ℕ) (xs ys : List ℕ) → All (λ x. x ≢ c) xs → split_at c (xs ++ (c ∷ ys)) ≡ some (xs, ys)
unfolding split_at
split_at-append c [] ys h = ground arith
split_at-append c (x ∷ xs) ys h = ground (arith, h.0, split_at-append c xs ys h.1)

-- The text `${expr}`.
abbrev pub placeholder : List ℕ → List ℕ → List ℕ
placeholder expr rest = b'$' ∷ b'{' ∷ (expr ++ (b'}' ∷ rest))

-- The expression with a fallback.
abbrev pub with_fallback : List ℕ → List ℕ → List ℕ
with_fallback key fallback = key ++ (b':' ∷ b'-' ∷ fallback)

next_placeholder_lem :
    (before expr rest : List ℕ)
    → All (λ c. c ≢ b'$') before
    → All (λ c. c ≢ b'}') expr
    → next_placeholder (before ++ placeholder expr rest) ≡ some (before, (expr, rest))
unfolding next_placeholder
next_placeholder_lem before expr rest h k =
    rw
      (
        split_pair-append b'$' b'{' before (expr ++ (b'}' ∷ rest)) h,
        split_at-append b'}' expr rest k,
        next_placeholder,
      )
      refl

replacement-with_fallback :
    (env : Map (List ℕ)) (key fallback : List ℕ)
    → All (λ c. c ≢ b':') key
    → replacement env (with_fallback key fallback) ≡ or_fallback (get_env env key) fallback
unfolding replacement
replacement-with_fallback env key fallback h =
    rw (split_pair-append b':' b'-' key fallback h, replacement) refl

resolve_loop-step :
    (fuel : ℕ) (env : Map (List ℕ)) (value before expr behind : List ℕ)
    → next_placeholder value ≡ some (before, (expr, behind))
    → resolve_loop (suc fuel) env value
      ≡ put_before (before ++ replacement env expr) (resolve_loop fuel env behind)
unfolding resolve_loop
resolve_loop-step fuel env value before expr behind e = rw (e, resolve_loop) refl

-- The first variable of a text, `${key:-fallback}` behind a part without `$`, where the key has no `:` and
-- neither has a `}`, becomes the value of the key, or the fallback where that is not set or empty, and the
-- rest of the text is resolved by itself: what a variable's value holds is not resolved again.
pub resolve_env-placeholder :
    (env : Map (List ℕ)) (before key fallback rest : List ℕ)
    → All (λ c. c ≢ b'$') before
    → All (λ c. c ≢ b':') key
    → All (λ c. c ≢ b'}') (with_fallback key fallback)
    → resolve_env env (before ++ placeholder (with_fallback key fallback) rest)
      ≡ put_before (before ++ or_fallback (get_env env key) fallback) (resolve_env env rest)
unfolding resolve_env
resolve_env-placeholder env before key fallback rest h k e =
    let expr = with_fallback key fallback in
    let value = before ++ placeholder expr rest in
    let found = next_placeholder_lem before expr rest h e in
    let shorter : length rest < length value =
      omega
        (arith, length-append before (placeholder expr rest), length-append expr (b'}' ∷ rest)) in
    resolve_loop-step (length value) env value before expr rest found
    ∙ ap (λ (t : List ℕ). put_before (before ++ t) (resolve_loop (length value) env rest))
        (replacement-with_fallback env key fallback k)
    ∙ ap (put_before (before ++ or_fallback (get_env env key) fallback))
        (resolve_loop_enough (length value) (suc (length rest)) env rest shorter (omega arith))
