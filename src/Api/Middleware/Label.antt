-- ===== src/Api/Middleware/Label.antt =====
-- The labels of a request.
use super_voice.Base.{
  ℕ, ◌≡◌, ◌≢◌, refl, inl, inr, Bool, true, false, ◌||◌, List, [], ◌∷◌, arith, ◌==◌, if◌then◌else◌,
  All, Bool-cases, Option, none, some,
}
use super_voice.Base.Chars.{is_alnum, is_space, to_lower}
use super_voice.Base.Map
use super_voice.Base.Text.{text}
use super_voice.Api.Env.{is_empty}
use super_voice.Api.Metrics.{escape_char, escape_label}
use super_voice.Api.Middleware.{
  HttpRequest, sanitize_chars, sanitize_label, company_parameter, company_from, resolve_company,
}

-- A byte that a label shows as it is, and that sanitizing keeps.
pub IsLabelChar : ℕ → Type 0
IsLabelChar c = (c ≢ 92) × (c ≢ b'"') × (c ≢ 10)

kept_char :
    (c : ℕ)
    → (is_alnum c || (c == b'_' || (c == b'-' || c == b'.'))) ≡ true
    → IsLabelChar (to_lower c)
unfolding IsLabelChar is_alnum to_lower
kept_char c h = (ground (arith, h), ground (arith, h), ground (arith, h))

sanitize_chars-IsLabel : (value : List ℕ) → All IsLabelChar (sanitize_chars value)
unfolding sanitize_chars IsLabelChar
sanitize_chars-IsLabel [] = tt
sanitize_chars-IsLabel (c ∷ value) =
    elim (Bool-cases (is_alnum c || (c == b'_' || (c == b'-' || c == b'.')))) [
      | inl e ↦ rw e (kept_char c e, sanitize_chars-IsLabel value)
      | inr e ↦ elim (Bool-cases (is_space c)) [
        | inl e' ↦
            rw (e, e') ((omega arith, omega arith, omega arith), sanitize_chars-IsLabel value)
        | inr e' ↦ rw (e, e') (sanitize_chars-IsLabel value)
      ]
    ]

escape_char-Label : (c : ℕ) → IsLabelChar c → escape_char c ≡ c ∷ []
unfolding IsLabelChar
escape_char-Label c h = ground (arith, h.0, h.1, h.2)

escape_label-Label : (value : List ℕ) → All IsLabelChar value → escape_label value ≡ value
unfolding escape_label
escape_label-Label [] h = refl
escape_label-Label (c ∷ value) h = rw (escape_char-Label c h.0, escape_label-Label value h.1) refl

-- What can stand between the quotes of a label.
IsPlain : List ℕ → Type 0
IsPlain value = (escape_label value ≡ value) × (is_empty value ≡ false)

IsPlain-unknown : IsPlain (text "unknown")
unfolding IsPlain escape_label
IsPlain-unknown = (refl, refl)

pick-IsPlain : (b : Bool) (x y : List ℕ) → IsPlain x → IsPlain y → IsPlain (if b then x else y)
pick-IsPlain true x y hx hy = hx
pick-IsPlain false x y hx hy = hy

sanitize_label-IsPlain : (value : List ℕ) → IsPlain (sanitize_label value)
unfolding sanitize_label IsPlain
sanitize_label-IsPlain value = cases (sanitize_chars value) (sanitize_chars-IsLabel value)
  where
    cases :
        (chars : List ℕ)
        → All IsLabelChar chars
        → IsPlain (if is_empty chars then text "unknown" else chars)
    cases [] h = IsPlain-unknown
    cases (c ∷ chars) h = (escape_label-Label (c ∷ chars) h, refl)

company_parameter-IsPlain : (value : Option (List ℕ)) → IsPlain (company_parameter value)
unfolding company_parameter
company_parameter-IsPlain none = IsPlain-unknown
company_parameter-IsPlain (some value) =
    pick-IsPlain (is_empty value) (text "unknown") (sanitize_label value) IsPlain-unknown
      (sanitize_label-IsPlain value)

company_from-IsPlain :
    (request : HttpRequest) (headers : List (List ℕ)) → IsPlain (company_from request headers)
unfolding company_from
company_from-IsPlain request [] =
    company_parameter-IsPlain (Map.lookup (text "company") request.parameters)
company_from-IsPlain request (header ∷ headers) =
    pick-IsPlain (is_empty (request.get_header header)) (company_from request headers)
      (sanitize_label (request.get_header header)) (company_from-IsPlain request headers)
      (sanitize_label-IsPlain (request.get_header header))

-- The company of any request is a label that is not empty and that the metrics show as it is: nothing in
-- it needs escaping.
pub escape_label-resolve_company :
    (request : HttpRequest)
    → (escape_label (resolve_company request) ≡ resolve_company request)
      × (is_empty (resolve_company request) ≡ false)
unfolding resolve_company IsPlain
escape_label-resolve_company request =
    company_from-IsPlain request (text "X-Company" ∷ text "X-Company-Id" ∷ text "X-Tenant" ∷ [])
