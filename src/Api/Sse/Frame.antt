-- ===== src/Api/Sse/Frame.antt =====
-- The text of an event: one `data:` line for each line of the data, and an empty line.
use mathlib.Core.List.{append_assoc}
use super_voice.Base.{
  ℕ, zero, suc, ◌≤◌, ◌≡◌, ◌≢◌, refl, sym, ap, ◌∙◌, ◌⊎◌, inl, inr, false, List, [], ◌∷◌, ◌++◌, arith,
  ◌==◌, length, length-append, Bool-cases, All,
}
use super_voice.Base.Text.{text}
use super_voice.Api.Sse.{
  Found, not_found, found, find_newline, one_later, escape_loop, escape_data, newline,
}

abbrev NotNewline : ℕ → Type 0
NotNewline c = c ≢ newline

-- Lines with newlines between them.
abbrev joined : List ℕ → List (List ℕ) → List ℕ
joined line [] = line
joined line (next ∷ more) = line ++ (newline ∷ joined next more)

-- A field `data` for each line.
abbrev data_fields : List ℕ → List (List ℕ) → List ℕ
data_fields line [] = text "data: " ++ (line ++ (newline ∷ []))
data_fields line (next ∷ more) = text "data: " ++ (line ++ (newline ∷ data_fields next more))

-- `out` has a field for each line of the data.
pub record Lines (data_ out : List ℕ) : Type 0 where
  pub first : List ℕ
  pub others : List (List ℕ)
  pub one_line_each : All NotNewline first × All (All NotNewline) others
  pub fields : out ≡ data_fields first others
  pub whole : (data_ ≡ joined first others) ⊎ (data_ ≡ joined first others ++ (newline ∷ []))

data Search (cs : List ℕ) : Found → Type 0 where
  none_there : All NotNewline cs → Search cs not_found
  there :
      (line rest : List ℕ)
      → All NotNewline line
      → cs ≡ line ++ (newline ∷ rest)
      → Search cs (found line rest)

one_later-Search :
    (c : ℕ) (cs : List ℕ) (f : Found) → NotNewline c → Search cs f → Search (c ∷ cs) (one_later c f)
unfolding one_later
one_later-Search c cs _ n (none_there h) = none_there (n, h)
one_later-Search c cs _ n (there line rest h e) = there (c ∷ line) rest (n, h) (ap (λ xs. c ∷ xs) e)

find_newline-Search : (cs : List ℕ) → Search cs (find_newline cs)
unfolding find_newline
find_newline-Search [] = none_there tt
find_newline-Search (c ∷ cs) = elim (Bool-cases (c == newline)) [
  | inl here ↦ rw here (there [] cs tt (let e : c ≡ newline = ground (arith, here) in rw e refl))
  | inr far ↦ rw far (
      one_later-Search c cs (find_newline cs) (λ e. ground (arith, far, e))
        (find_newline-Search cs))
]

-- One round that found a newline.
another_line :
    (cs line rest out : List ℕ)
    → All NotNewline line
    → cs ≡ line ++ (newline ∷ rest)
    → Lines rest out
    → Lines cs (text "data: " ++ (line ++ (newline ∷ out)))
another_line cs line rest out h e l = record {
  first = line;
  others = l.first ∷ l.others;
  one_line_each = (h, l.one_line_each);
  fields = ap (λ xs. text "data: " ++ (line ++ (newline ∷ xs))) l.fields;
  whole = elim l.whole [
    | inl w ↦ inl (e ∙ ap (λ xs. line ++ (newline ∷ xs)) w)
    | inr w ↦ inr (
        e
        ∙ ap (λ xs. line ++ (newline ∷ xs)) w
        ∙ sym (append_assoc line (newline ∷ joined l.first l.others) (newline ∷ [])))
  ];
}

last_line :
    (cs line : List ℕ)
    → All NotNewline line
    → cs ≡ line ++ (newline ∷ [])
    → Lines cs (text "data: " ++ (line ++ (newline ∷ [])))
last_line cs line h e = record {
  first = line;
  others = [];
  one_line_each = (h, tt);
  fields = refl;
  whole = inr e;
}

round :
    (fuel : ℕ) (c : ℕ) (cs : List ℕ) (f : Found)
    → Search (c ∷ cs) f
    → ((d : ℕ) (ds : List ℕ)
        → length (d ∷ ds) ≤ length cs
        → Lines (d ∷ ds) (escape_loop fuel (d ∷ ds)))
    → Lines (c ∷ cs) (elim f [
      | not_found ↦ text "data: " ++ ((c ∷ cs) ++ (newline ∷ []))
      | found line rest ↦ text "data: " ++ (line ++ (newline ∷ escape_loop fuel rest))
    ])
unfolding escape_loop
round fuel c cs _ (none_there h) rec_ = record {
  first = c ∷ cs;
  others = [];
  one_line_each = (h, tt);
  fields = refl;
  whole = inl refl;
}
round zero c cs _ (there line [] h e) rec_ = last_line (c ∷ cs) line h e
round (suc fuel) c cs _ (there line [] h e) rec_ = last_line (c ∷ cs) line h e
round fuel c cs _ (there line (d ∷ ds) h e) rec_ =
    another_line (c ∷ cs) line (d ∷ ds) (escape_loop fuel (d ∷ ds)) h e
      (rec_ d ds (omega (arith, ap length e, length-append line (newline ∷ d ∷ ds))))

escape_loop-Lines :
    (fuel : ℕ) (c : ℕ) (cs : List ℕ)
    → length (c ∷ cs) ≤ fuel
    → Lines (c ∷ cs) (escape_loop fuel (c ∷ cs))
unfolding escape_loop
escape_loop-Lines zero c cs h = absurd (omega (arith, h))
escape_loop-Lines (suc fuel) c cs h =
    round fuel c cs (find_newline (c ∷ cs)) (find_newline-Search (c ∷ cs))
      (λ d ds k. escape_loop-Lines fuel d ds (omega (arith, h, k)))

escape_data_cons :
    (c : ℕ) (cs : List ℕ)
    → escape_data (c ∷ cs) ≡ escape_loop (length (c ∷ cs)) (c ∷ cs) ++ (newline ∷ [])
unfolding escape_data
escape_data_cons c cs =
    let some_bytes : (length (c ∷ cs) == 0) ≡ false = ground arith in rw some_bytes refl

-- The text of an event's data is a `data: ` field for each of its lines, none of which holds a
-- newline, and then the empty line that ends the event. The lines with newlines between them are the
-- data, or the data without the newline at its end.
pub escape_data-Lines :
    (data_ : List ℕ)
    → (fields : List ℕ) × (escape_data data_ ≡ fields ++ (newline ∷ [])) × Lines data_ fields
unfolding escape_data escape_loop
escape_data-Lines [] = (
  text "data: " ++ (newline ∷ []),
  refl,
  record { first = []; others = []; one_line_each = (tt, tt); fields = refl; whole = inl refl },
)
escape_data-Lines (c ∷ cs) = (
  escape_loop (length (c ∷ cs)) (c ∷ cs),
  escape_data_cons c cs,
  escape_loop-Lines (length (c ∷ cs)) c cs (omega arith),
)
