-- ===== src/Api/Provider/Headers.antt =====
-- The header of a request, with a library whose headers are a map from names in any case.
use super_voice.Base.{
  ℕ, ◌≡◌, refl, ◌∙◌, inl, inr, false, Option, none, some, List, [], ◌++◌, if◌then◌else◌, Bool-cases,
}
use super_voice.Base.Chars.{lowered, to_lower}
use super_voice.Base.Text.{text, same}
use super_voice.Api.Provider.{
  AuthStrategy, bearer_authorization, x_api_key, x_goog_api_key, no_auth, ProviderConfig,
  RequestContext, Library, is_empty, put_auth, put_organization, build_headers,
}

-- `cpr::Header` is a map that compares names without regard to case.
pub record HeaderLaws {Value Header Double : Type 0} (lib : Library Value Header Double)
    : Type 0 where
  pub find-put :
      (j k v : List ℕ) (h : Header)
      → lib.find_header k (lib.put_header j v h)
        ≡ (if same (lowered j) (lowered k) then some v else lib.find_header k h)

-- The name and the value that carry the key.
abbrev pub auth_name : AuthStrategy → List ℕ
auth_name bearer_authorization = text "Authorization"
auth_name x_api_key = text "x-api-key"
auth_name x_goog_api_key = text "x-goog-api-key"
auth_name no_auth = []

abbrev pub auth_value : AuthStrategy → List ℕ → List ℕ
auth_value bearer_authorization key = text "Bearer " ++ key
auth_value x_api_key key = key
auth_value x_goog_api_key key = key
auth_value no_auth key = []

abbrev pub UsesKey : AuthStrategy → Type 0
UsesKey no_auth = ⊥
UsesKey _ = Unit

module _ {Value Header Double : Type 0} (lib : Library Value Header Double)
    (laws : HeaderLaws lib) where
  put_auth_lem :
      (strategy : AuthStrategy) (key : List ℕ) (h : Header)
      → UsesKey strategy
      → lib.find_header (auth_name strategy) (put_auth lib strategy key h)
        ≡ some (auth_value strategy key)
  unfolding put_auth same to_lower
  put_auth_lem bearer_authorization key h u =
      laws.find-put (text "Authorization") (text "Authorization") (text "Bearer " ++ key) h
  put_auth_lem x_api_key key h u = laws.find-put (text "x-api-key") (text "x-api-key") key h
  put_auth_lem x_goog_api_key key h u =
      laws.find-put (text "x-goog-api-key") (text "x-goog-api-key") key h
  put_auth_lem no_auth key h u = absurd u

  other_name :
      (strategy : AuthStrategy)
      → UsesKey strategy
      → same (lowered (text "OpenAI-Organization")) (lowered (auth_name strategy)) ≡ false
  unfolding same to_lower
  other_name bearer_authorization u = refl
  other_name x_api_key u = refl
  other_name x_goog_api_key u = refl
  other_name no_auth u = absurd u

  put_organization_lem :
      (strategy : AuthStrategy) (organization : Option (List ℕ)) (h : Header)
      → UsesKey strategy
      → lib.find_header (auth_name strategy) (put_organization lib organization h)
        ≡ lib.find_header (auth_name strategy) h
  unfolding put_organization
  put_organization_lem strategy none h u = refl
  put_organization_lem strategy (some o) h u = elim (Bool-cases (is_empty o)) [
    | inl nothing ↦ rw nothing refl
    | inr named ↦
        rw
          (
            named,
            laws.find-put (text "OpenAI-Organization") (auth_name strategy) o h,
            other_name strategy u,
          )
          refl
  ]

  -- Whatever default headers the configuration has, the header of a request carries the API key in the
  -- way of the strategy, if that is one with a key.
  pub build_headers_auth :
      (get_env : List ℕ → Option (List ℕ)) (config : ProviderConfig) (strategy : AuthStrategy)
      (api_key : List ℕ)
      → (context : RequestContext) → UsesKey strategy
      → lib.find_header
          (auth_name strategy)
          (build_headers lib get_env config strategy api_key context)
        ≡ some (auth_value strategy api_key)
  unfolding build_headers
  build_headers_auth get_env config strategy api_key context u =
      elim (Bool-cases (is_empty config.organization_env)) [
        | inl nothing ↦ rw nothing (put_auth_lem strategy api_key _ u)
        | inr named ↦ rw named (
            put_organization_lem strategy (get_env config.organization_env) _ u
            ∙ put_auth_lem strategy api_key _ u)
      ]
