-- ===== src/Api/Tracing/Resolve.antt =====
-- The loop of `resolveEnv` ends.
use super_voice.Base.{
  ℕ, zero, suc, ◌<◌, ◌≡◌, refl, inl, inr, ◌&&◌, Option, none, some, List, [], ◌∷◌, ◌++◌, arith,
  length, ◌==◌, Bool-cases,
}
use super_voice.Base.Map.{Map}
use super_voice.Api.Env.{split_at}
use super_voice.Api.Tracing.{
  split_pair, next_placeholder, put_before, resolve_loop, resolve_env, replacement,
}

-- What a search leaves behind the place it found is shorter than a bound.
Shorter : ℕ → Option (List ℕ × List ℕ) → Type 0
Shorter n none = Unit
Shorter n (some (before, behind)) = length behind < n

behind_more :
    (n c : ℕ) (found : Option (List ℕ × List ℕ))
    → Shorter n found
    → Shorter (suc n) (elim found [ none ↦ none | some (before, rest) ↦ some (c ∷ before, rest) ])
unfolding Shorter
behind_more n c none h = tt
behind_more n c (some (before, rest)) h = omega (arith, h)

split_at-Shorter : (c : ℕ) (xs : List ℕ) → Shorter (length xs) (split_at c xs)
unfolding split_at Shorter
split_at-Shorter c [] = tt
split_at-Shorter c (x ∷ xs) = elim (Bool-cases (x == c)) [
  | inl e ↦ rw e (omega arith)
  | inr e ↦ rw e (behind_more (length xs) x (split_at c xs) (split_at-Shorter c xs))
]

split_pair-Shorter : (a b : ℕ) (xs : List ℕ) → Shorter (length xs) (split_pair a b xs)
unfolding split_pair Shorter
split_pair-Shorter a b [] = tt
split_pair-Shorter a b (x ∷ []) = elim (Bool-cases (x == a)) [ inl e ↦ rw e tt | inr e ↦ rw e tt ]
split_pair-Shorter a b (x ∷ y ∷ xs) = elim (Bool-cases (x == a && y == b)) [
  | inl e ↦ rw e (omega arith)
  | inr e ↦
      rw e (
        behind_more (suc (length xs)) x (split_pair a b (y ∷ xs)) (split_pair-Shorter a b (y ∷ xs)))
]

unfoldable pub Shrinks : ℕ → Option (List ℕ × (List ℕ × List ℕ)) → Type 0
Shrinks n none = Unit
Shrinks n (some (before, (expr, behind))) = length behind < n

inner-Shrinks :
    (n : ℕ) (before inner : List ℕ) (found : Option (List ℕ × List ℕ))
    → length inner < n
    → Shorter (length inner) found
    → Shrinks n (elim found [ none ↦ none | some (expr, behind) ↦ some (before, (expr, behind)) ])
unfolding Shrinks Shorter
inner-Shrinks n before inner none less h = tt
inner-Shrinks n before inner (some (expr, behind)) less h = omega (arith, less, h)

pub next_placeholder-Shrinks : (value : List ℕ) → Shrinks (length value) (next_placeholder value)
unfolding next_placeholder Shorter Shrinks
next_placeholder-Shrinks value =
    cases (split_pair b'$' b'{' value) (split_pair-Shorter b'$' b'{' value)
  where
    cases :
        (found : Option (List ℕ × List ℕ))
        → Shorter (length value) found
        → Shrinks (length value) (elim found [
          | none ↦ none
          | some (before, inner) ↦ elim (split_at b'}' inner) [
            | none ↦ none
            | some (expr, behind) ↦ some (before, (expr, behind))
          ]
        ])
    cases none h = tt
    cases (some (before, inner)) h =
        inner-Shrinks (length value) before inner (split_at b'}' inner) h
          (split_at-Shorter b'}' inner)

IsSome : Option (List ℕ) → Type 0
IsSome none = ⊥
IsSome (some r) = Unit

put_before-IsSome :
    (done : List ℕ) (rest : Option (List ℕ)) → IsSome rest → IsSome (put_before done rest)
unfolding IsSome
put_before-IsSome done none h = absurd h
put_before-IsSome done (some rest) h = tt

-- With more fuel than the text has bytes, a result comes.
resolve_loop-IsSome :
    (fuel : ℕ) (env : Map (List ℕ)) (value : List ℕ)
    → length value < fuel
    → IsSome (resolve_loop fuel env value)
unfolding resolve_loop IsSome Shrinks
resolve_loop-IsSome zero env value h = elim h [ ]
resolve_loop-IsSome (suc fuel) env value h =
    cases (resolve_loop-IsSome fuel env) (next_placeholder value) (next_placeholder-Shrinks value)
  where
    cases :
        ((v : List ℕ) → length v < fuel → IsSome (resolve_loop fuel env v))
        → (found : Option (List ℕ × (List ℕ × List ℕ))) → Shrinks (length value) found
        → IsSome (elim found [
          | none ↦ some value
          | some (before, (expr, behind)) ↦
              put_before (before ++ replacement env expr) (resolve_loop fuel env behind)
        ])
    cases ih none less = tt
    cases ih (some (before, (expr, behind))) less =
        put_before-IsSome (before ++ replacement env expr) (resolve_loop fuel env behind)
          (ih behind (omega (arith, h, less)))

-- Filling in the variables of a text ends with a text: the fuel, one more than the text has bytes, is
-- enough whatever the variables are.
pub resolve_env-Some :
    (env : Map (List ℕ)) (value : List ℕ) → (r : List ℕ) × (resolve_env env value ≡ some r)
unfolding resolve_env IsSome
resolve_env-Some env value =
    read (resolve_env env value) (resolve_loop-IsSome (suc (length value)) env value (omega arith))
  where
    read : (o : Option (List ℕ)) → IsSome o → (r : List ℕ) × (o ≡ some r)
    read none h = absurd h
    read (some r) h = (r, refl)
