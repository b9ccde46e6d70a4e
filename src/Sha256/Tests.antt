-- ===== src/Sha256/Tests.antt =====
-- The theorems on SHA-256 at concrete inputs.
use super_voice.Base.{ℕ, ◌≡◌, List, [], ◌∷◌}
use super_voice.Base.Text.{text}
use super_voice.Base.Result.{ok}
use super_voice.Sha256.{sha256}
use super_voice.Sha256.Client.{Hasher, new, finalize}
use super_voice.Sha256.Client.Same.{feed, joined, finalize-feed}
use super_voice.Sha256.Reference.{reference, sha256-eq-reference}

abbrev pieces : List (List ℕ)
pieces = text "ab" ∷ [] ∷ text "c" ∷ []

finalize-feed_example :
    (h : Hasher) × (feed pieces new ≡ ok h) × ((finalize h).0 ≡ sha256 (joined pieces))
finalize-feed_example = finalize-feed pieces

sha256-eq-reference_example : sha256 (text "abc") ≡ reference (text "abc")
sha256-eq-reference_example = sha256-eq-reference (text "abc")
