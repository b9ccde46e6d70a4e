-- ===== src/Api/Tracing/Spans/Frozen.antt =====
-- A span that has ended.
use super_voice.Base.{
  ℕ, zero, suc, ◌≡◌, ◌≢◌, refl, sym, ◌∙◌, ap, Bool, true, false, Option, none, some, List, [], ◌∷◌,
  ◌++◌, if◌then◌else◌, get_elem?, set,
}
use super_voice.Base.Map
use super_voice.Base.Int.{ℤ, pos}
use super_voice.Api.Tracing.Spans.{
  Span, Thread, Attributes, AttributeValue, start_span, end_span, end_live, closed, drop_span,
  set_attribute, add_event, change_span, clear_current_span,
}
use super_voice.Api.Tracing.Spans.Once.{Step, starts, sets, adds, ends, drops, clears}

get_elem?-append-old {ℓ} :
    {A : Type ℓ} (xs : List A) (x y : A) (i : ℕ)
    → get_elem? xs i ≡ some y
    → get_elem? (xs ++ (x ∷ [])) i ≡ some y
get_elem?-append-old [] x y i h = cc
get_elem?-append-old (z ∷ xs) x y zero h = h
get_elem?-append-old (z ∷ xs) x y (suc i) h = get_elem?-append-old xs x y i h

false-ne-true : false ≢ true
false-ne-true h = cc

module _ {Double : Type 0} where
  -- A span that is there and has ended.
  unfoldable pub HasEnded : ℕ → Span Double → Thread Double → Type 0
  HasEnded i span thread = (get_elem? thread.spans i ≡ some span) × (span.ended ≡ true)

  same_span : (a b : Span Double) → ◌≡◌ {A = Option (Span Double)} (some a) (some b) → a ≡ b
  same_span a b e = ap (λ (o : Option (Span Double)). elim o [ none ↦ a | some x ↦ x ]) e

  -- A write that gives a span its own value back leaves the others alone too.
  set-kept :
      (spans : List (Span Double)) (name i : ℕ) (new old span : Span Double)
      → get_elem? spans name ≡ some old
      → get_elem? spans i ≡ some span
      → (name ≡ i → new ≡ old)
      → get_elem? (set spans name new) i ≡ some span
  set-kept [] name i new old span e h k = cc
  set-kept (s ∷ spans) zero zero new old span e h k = ap some (k refl) ∙ sym e ∙ h
  set-kept (s ∷ spans) zero (suc i) new old span e h k = h
  set-kept (s ∷ spans) (suc name) zero new old span e h k = h
  set-kept (s ∷ spans) (suc name) (suc i) new old span e h k =
      set-kept spans name i new old span e h (λ p. k (ap suc p))

  same_place :
      (spans : List (Span Double)) (name i : ℕ) (old span : Span Double)
      → get_elem? spans name ≡ some old
      → get_elem? spans i ≡ some span
      → name ≡ i
      → old ≡ span
  same_place spans name i old span e h p = same_span old span (sym e ∙ ap (get_elem? spans) p ∙ h)

  abbrev put_back :
      ℕ → (Span Double → Span Double) → Thread Double → Option (Span Double) → Thread Double
  put_back name change thread none = thread
  put_back name change thread (some span) = record thread {
    spans = set thread.spans name (change span);
  }

  change_span-HasEnded :
      (name : ℕ) (change : Span Double → Span Double) (i : ℕ) (span : Span Double)
      (thread : Thread Double)
      → ((s : Span Double) → s.ended ≡ true → change s ≡ s)
      → HasEnded i span thread
      → HasEnded i span (change_span name change thread)
  unfolding change_span HasEnded
  change_span-HasEnded name change i span thread keeps (h, done) =
      (cases (get_elem? thread.spans name) refl, done)
    where
      cases :
          (found : Option (Span Double))
          → get_elem? thread.spans name ≡ found
          → get_elem? (put_back name change thread found).spans i ≡ some span
      cases none e = h
      cases (some old) e = set-kept thread.spans name i (change old) old span e h (λ p. keeps old (
          ap (λ (s : Span Double). s.ended) (same_place thread.spans name i old span e h p) ∙ done))

  abbrev end_found : ℕ → ℤ → List ℕ → ℕ → Thread Double → Option (Span Double) → Thread Double
  end_found name status message now thread none = thread
  end_found name status message now thread (some span) =
      if span.ended then thread else end_live name status message now thread span

  end_span-HasEnded :
      (name : ℕ) (status : ℤ) (message : List ℕ) (now i : ℕ) (span : Span Double)
      (thread : Thread Double)
      → HasEnded i span thread
      → HasEnded i span (end_span name status message now thread)
  unfolding end_span end_live HasEnded
  end_span-HasEnded name status message now i span thread (h, done) =
      (cases (get_elem? thread.spans name) refl, done)
    where
      live :
          (old : Span Double)
          → get_elem? thread.spans name ≡ some old
          → (b : Bool) → old.ended ≡ b
          → get_elem? (if b then thread else end_live name status message now thread old).spans i
            ≡ some span
      live old e true d = h
      live old e false d =
          set-kept thread.spans name i (closed status message now old) old span e h (λ p. absurd (
            false-ne-true (
              sym d
              ∙ ap (λ (s : Span Double). s.ended) (same_place thread.spans name i old span e h p)
              ∙ done)))

      cases :
          (found : Option (Span Double))
          → get_elem? thread.spans name ≡ found
          → get_elem? (end_found name status message now thread found).spans i ≡ some span
      cases none e = h
      cases (some old) e = live old e (old.ended) refl

  set_attribute-frozen :
      (key : List ℕ) (value : AttributeValue Double) (s : Span Double)
      → s.ended ≡ true
      → set_attribute key value s ≡ s
  unfolding set_attribute
  set_attribute-frozen key value s e =
      ap
        (λ (b : Bool). if b then s else record s { attributes = Map.insert key value s.attributes })
        e

  add_event-frozen :
      (name : List ℕ) (attributes : Attributes Double) (now : ℕ) (s : Span Double)
      → s.ended ≡ true
      → add_event name attributes now s ≡ s
  unfolding add_event
  add_event-frozen name attributes now s e =
      ap
        (λ (b : Bool). if b then s else record s {
          events = s.events ++ (record { name = name; time = now; attributes = attributes } ∷ []);
        })
        e

  -- What a span holds when it has ended is what it holds after any step of its thread: no attribute, event,
  -- end or drop changes it.
  pub Step-HasEnded :
      {before after : Thread Double} (i : ℕ) (span : Span Double)
      → Step before after
      → HasEnded i span before
      → HasEnded i span after
  unfolding start_span drop_span clear_current_span HasEnded set_attribute add_event
  Step-HasEnded i span (starts {thread} name kind parent attributes drawn now) (h, done) =
      (get_elem?-append-old thread.spans _ span i h, done)
  Step-HasEnded i span (sets {thread} name key value) h =
      change_span-HasEnded name (set_attribute key value) i span thread
        (set_attribute-frozen key value) h
  Step-HasEnded i span (adds {thread} name event attributes now) h =
      change_span-HasEnded name (add_event event attributes now) i span thread
        (add_event-frozen event attributes now) h
  Step-HasEnded i span (ends {thread} name status message now) h =
      end_span-HasEnded name status message now i span thread h
  Step-HasEnded i span (drops {thread} name now) h =
      end_span-HasEnded name (pos 0) [] now i span
        (record thread { owners = set thread.owners name false }) h
  Step-HasEnded i span clears h = h
