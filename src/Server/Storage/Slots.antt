-- ===== src/Server/Storage/Slots.antt =====
-- The table of chunk files against the set of received indices.
use super_voice.Base.{
  ℕ, zero, suc, ◌-◌, ◌≤◌, ◌<◌, ◌≡◌, ◌≢◌, refl, ap, ◌⊎◌, inl, inr, true, false, ◌||◌, some, List, [],
  ◌∷◌, arith, ◌==◌, length, set, get_elem?, replicate, Bool-cases, ==→eq,
}
use mathlib.Core.List.{append-nil}
use super_voice.Server.Disk.{FilePath}
use super_voice.Server.Storage.{contains, insert_index, grow}

-- The files that are there.
abbrev pub filled : List FilePath → ℕ
filled [] = 0
filled ([] ∷ ps) = filled ps
filled ((c ∷ cs) ∷ ps) = suc (filled ps)

filled-le : (ps : List FilePath) → filled ps ≤ length ps
filled-le [] = omega arith
filled-le ([] ∷ ps) = omega (arith, filled-le ps)
filled-le ((c ∷ cs) ∷ ps) = omega (arith, filled-le ps)

-- A table with as many files as places has no empty place.
pub filled_full :
    (ps : List FilePath) (i : ℕ) → filled ps ≡ length ps → i < length ps → get_elem? ps i ≢ some []
filled_full [] i e h = absurd (omega arith)
filled_full ([] ∷ ps) i e h = absurd (omega (arith, filled-le ps))
filled_full ((c ∷ cs) ∷ ps) zero e h = λ p. cc
filled_full ((c ∷ cs) ∷ ps) (suc i) e h = filled_full ps i (omega arith) (omega arith)

-- A table with no empty place has as many files as places.
pub full-filled :
    (ps : List FilePath)
    → ((i : ℕ) → i < length ps → get_elem? ps i ≢ some [])
    → filled ps ≡ length ps
full-filled [] h = refl
full-filled ([] ∷ ps) h = absurd (h 0 (omega arith) refl)
full-filled ((c ∷ cs) ∷ ps) h = ap suc (full-filled ps (λ i p. h (suc i) (omega arith)))

-- A file put into an empty place is one more; over a file, none more.
pub filled-set_empty :
    (ps : List FilePath) (i : ℕ) (c : ℕ) (cs : FilePath)
    → get_elem? ps i ≡ some []
    → filled (set ps i (c ∷ cs)) ≡ suc (filled ps)
filled-set_empty [] i c cs e = cc
filled-set_empty ([] ∷ ps) zero c cs e = refl
filled-set_empty ((d ∷ ds) ∷ ps) zero c cs e = cc
filled-set_empty ([] ∷ ps) (suc i) c cs e = filled-set_empty ps i c cs e
filled-set_empty ((d ∷ ds) ∷ ps) (suc i) c cs e = ap suc (filled-set_empty ps i c cs e)

pub filled-set_file :
    (ps : List FilePath) (i : ℕ) (c d : ℕ) (cs ds : FilePath)
    → get_elem? ps i ≡ some (d ∷ ds)
    → filled (set ps i (c ∷ cs)) ≡ filled ps
filled-set_file [] i c d cs ds e = cc
filled-set_file ([] ∷ ps) zero c d cs ds e = cc
filled-set_file ((b ∷ bs) ∷ ps) zero c d cs ds e = refl
filled-set_file ([] ∷ ps) (suc i) c d cs ds e = filled-set_file ps i c d cs ds e
filled-set_file ((b ∷ bs) ∷ ps) (suc i) c d cs ds e = ap suc (filled-set_file ps i c d cs ds e)

pub filled-replicate : (n : ℕ) → filled (replicate n []) ≡ 0
filled-replicate zero = refl
filled-replicate (suc n) = filled-replicate n

pub get_elem?-replicate : (n i : ℕ) → i < n → get_elem? (replicate {A = FilePath} n []) i ≡ some []
get_elem?-replicate zero i h = absurd (omega arith)
get_elem?-replicate (suc n) zero h = refl
get_elem?-replicate (suc n) (suc i) h = get_elem?-replicate n i (omega arith)

-- A table that is large enough is not changed; one that is empty gets its places.
pub grow_enough : (n : ℕ) (ps : List FilePath) → length ps ≡ n → grow n ps ≡ ps
unfolding grow
grow_enough n ps e = let none_left : n - length ps ≡ 0 = omega arith in rw none_left (append-nil ps)

pub grow-nil : (n : ℕ) → grow n [] ≡ replicate n []
unfolding grow
grow-nil n = ap (λ k. replicate k []) (omega arith)

-- Inserting into the set.
pub contains-insert_index :
    (i j : ℕ) (xs : List ℕ) → contains j (insert_index i xs) ≡ (j == i || contains j xs)
unfolding insert_index contains
contains-insert_index i j xs = elim (Bool-cases (contains i xs)) [
  | inl e ↦ rw e (again e (Bool-cases (j == i)))
  | inr e ↦ rw e refl
]
  where
    again :
        contains i xs ≡ true
        → ((j == i) ≡ true) ⊎ ((j == i) ≡ false)
        → contains j xs ≡ (j == i || contains j xs)
    again e (inl q) = rw q (rw (==→eq j i q) e)
    again e (inr q) = rw q refl

pub length-insert_new :
    (i : ℕ) (xs : List ℕ) → contains i xs ≡ false → length (insert_index i xs) ≡ suc (length xs)
unfolding insert_index
length-insert_new i xs e = rw e refl

pub length-insert_old :
    (i : ℕ) (xs : List ℕ) → contains i xs ≡ true → length (insert_index i xs) ≡ length xs
unfolding insert_index
length-insert_old i xs e = rw e refl
