-- ===== src/Server/Listeners/Count.antt =====
-- What a change of the number of data listeners leaves.
use mathlib.Core.Path.{subst}
use mathlib.Core.List.{append-nil, append_assoc}
use super_voice.Base.{
  ℕ, zero, suc, ◌+◌, ◌-◌, ◌≤◌, ◌<◌, ◌≡◌, refl, sym, ap, ◌∙◌, inl, inr, false, List, [], ◌∷◌, ◌++◌,
  arith, ltb, ◌==◌, length, length-append, take, min, Bool-cases, take-append, take_of_le,
  length-take,
}
use super_voice.Base.Word.{u16}
use super_voice.Server.Listeners.{
  ListenerManager, AcceptorContext, PortAnswers, data_, pop_back, shrink, start_acceptor, grow,
  ensure_data_acceptors_locked,
}

-- The acceptors from index `i` on have the data channel and the ports that follow one another.
abbrev pub Numbered : ℕ → ℕ → List AcceptorContext → Type 0
Numbered data_base i [] = Unit
Numbered data_base i (ctx ∷ rest) =
    (ctx.channel ≡ data_) × (ctx.port ≡ u16 (data_base + i)) × Numbered data_base (i + 1) rest

length-pop_back {ℓ} : {A : Type ℓ} (xs : List A) → length (pop_back xs) ≡ length xs - 1
unfolding pop_back
length-pop_back [] = omega arith
length-pop_back (x ∷ []) = omega arith
length-pop_back (x ∷ y ∷ ys) = omega (arith, length-pop_back (y ∷ ys))

take-pop_back {ℓ} :
    {A : Type ℓ} (n : ℕ) (xs : List A) → n < length xs → take n (pop_back xs) ≡ take n xs
unfolding pop_back
take-pop_back zero xs h = refl
take-pop_back (suc n) [] h = absurd (omega (arith, h))
take-pop_back (suc n) (x ∷ []) h = absurd (omega (arith, h))
take-pop_back (suc n) (x ∷ y ∷ ys) h =
    ap (λ zs. x ∷ zs) (take-pop_back n (y ∷ ys) (omega (arith, h)))

-- The loop keeps the first acceptors.
shrink-take :
    (fuel target : ℕ) (xs : List AcceptorContext)
    → length xs ≤ fuel
    → shrink fuel target xs ≡ take target xs
unfolding shrink
shrink-take zero target xs h = sym (take_of_le target xs (omega (arith, h)))
shrink-take (suc fuel) target xs h = elim (Bool-cases (ltb target (length xs))) [
  | inl more ↦ rw more (
      shrink-take fuel target (pop_back xs) (omega (arith, h, length-pop_back xs))
      ∙ take-pop_back target xs (ground (arith, more)))
  | inr few ↦ rw few (sym (take_of_le target xs (ground (arith, few))))
]

Numbered-take :
    (data_base n i : ℕ) (xs : List AcceptorContext)
    → Numbered data_base i xs
    → Numbered data_base i (take n xs)
Numbered-take data_base zero i xs h = tt
Numbered-take data_base (suc n) i [] h = tt
Numbered-take data_base (suc n) i (x ∷ xs) h = (h.0, h.1, Numbered-take data_base n (i + 1) xs h.2)

Numbered-append :
    (data_base i : ℕ) (xs ys : List AcceptorContext)
    → Numbered data_base i xs
    → Numbered data_base (i + length xs) ys
    → Numbered data_base i (xs ++ ys)
Numbered-append data_base i [] ys h k = subst (λ j. Numbered data_base j ys) (omega arith) k
Numbered-append data_base i (x ∷ xs) ys h k = (
  h.0,
  h.1,
  Numbered-append data_base (i + 1) xs ys h.2
      (subst (λ j. Numbered data_base j ys) (omega arith) k),
)

module _ (answers : ℕ → PortAnswers) where
  pub start_acceptor-same :
      (ctx : AcceptorContext)
      → ((start_acceptor answers ctx).channel ≡ ctx.channel)
        × ((start_acceptor answers ctx).port ≡ ctx.port)
  unfolding start_acceptor
  start_acceptor-same ctx = ground arith

  -- What the loop adds.
  record Grown (data_base n i : ℕ) (xs out : List AcceptorContext) : Type 0 where
    pub added : List AcceptorContext
    pub behind : out ≡ xs ++ added
    pub ports : Numbered data_base i added
    pub count : length added ≡ n

  grow-Grown :
      (data_base n i : ℕ) (xs : List AcceptorContext)
      → Grown data_base n i xs (grow answers data_base n i xs)
  unfolding grow
  grow-Grown data_base zero i xs = record {
    added = [];
    behind = sym (append-nil xs);
    ports = tt;
    count = refl;
  }
  grow-Grown data_base (suc n) i xs =
      let ctx =
        start_acceptor answers
          (record { channel = data_; port = u16 (data_base + i); running = false }) in
      let same =
        start_acceptor-same
          (record { channel = data_; port = u16 (data_base + i); running = false }) in
      let g = grow-Grown data_base n (i + 1) (xs ++ (ctx ∷ [])) in
      record {
        added = ctx ∷ g.added;
        behind = g.behind ∙ append_assoc xs (ctx ∷ []) g.added;
        ports = (same.0, same.1, g.ports);
        count = omega (arith, g.count);
      }

  -- After a call with `target`: that many, on their ports, and the first of before as they were.
  pub record Ensured (target : ℕ) (m r : ListenerManager) : Type 0 where
    pub numbered : Numbered m.data_base 0 r.data_acceptors
    pub count : length r.data_acceptors ≡ target
    pub kept :
        take (min target (length m.data_acceptors)) r.data_acceptors
        ≡ take (min target (length m.data_acceptors)) m.data_acceptors
    pub rest : r ≡ record m { data_acceptors = r.data_acceptors }

  pub ensure-Ensured :
      (target : ℕ) (m : ListenerManager)
      → Numbered m.data_base 0 m.data_acceptors
      → Ensured target m (ensure_data_acceptors_locked answers target m)
  unfolding ensure_data_acceptors_locked
  ensure-Ensured target m h = elim (Bool-cases (target == length m.data_acceptors)) [
    | inl same ↦
        rw same (record { numbered = h; count = ground (arith, same); kept = refl; rest = refl })
    | inr differs ↦ elim (Bool-cases (ltb target (length m.data_acceptors))) [
      | inl less ↦
          rw (differs, less)
            (let e = shrink-take (length m.data_acceptors) target m.data_acceptors (omega arith) in
              let small : target < length m.data_acceptors = ground (arith, less) in
              record {
                numbered = rw e (Numbered-take m.data_base target 0 m.data_acceptors h);
                count = ap length e ∙ length-take target m.data_acceptors ∙ omega (arith, small);
                kept =
                    let first_kept : min target (length m.data_acceptors) ≡ target =
                      omega (arith, small) in
                    rw (first_kept, e)
                      (take_of_le target (take target m.data_acceptors)
                        (omega (arith, length-take target m.data_acceptors)));
                rest = refl;
              })
      | inr more ↦
          rw (differs, more)
            (let g =
                grow-Grown m.data_base (target - length m.data_acceptors) (length m.data_acceptors)
                  m.data_acceptors in
              let large : length m.data_acceptors ≤ target = ground (arith, more) in
              record {
                numbered = rw g.behind (
                    Numbered-append m.data_base 0 m.data_acceptors g.added h
                      (subst (λ j. Numbered m.data_base j g.added) (omega arith) g.ports));
                count =
                    ap length g.behind
                    ∙ length-append m.data_acceptors g.added
                    ∙ omega (arith, g.count, large);
                kept =
                    let all_kept : min target (length m.data_acceptors) ≡ length m.data_acceptors =
                      omega (arith, large) in
                    rw (all_kept, g.behind)
                      (take-append m.data_acceptors g.added
                        ∙ sym
                            (take_of_le (length m.data_acceptors) m.data_acceptors (omega arith)));
                rest = refl;
              })
    ]
  ]
