-- ===== src/Go/Http.antt =====
-- Package net/http and net/url: the parts of requests that scia reads and writes. Header names are
-- in canonical form; a body is not modelled.
use scia.Base.{
  true, false, ◌≡◌, ◌∙◌, refl, ap, lookup-insert, eq_iff, if◌then◌else◌, String, List, [], ◌∷◌,
  Option, none, some, lookup, insert, erase, Bool, not, ◌==◌,
}

abbrev pub Header : Type 0
Header = List (String × List String)

abbrev first_value : Option (List String) → String
first_value none = ""
first_value (some []) = ""
first_value (some (v ∷ vs)) = v

-- Header.Get, Set, Del
unfoldable pub header_get : Header → String → String
header_get h name = first_value (lookup name h)

unfoldable pub header_set : Header → String → String → Header
header_set h name value = insert name (value ∷ []) h

unfoldable pub header_del : Header → String → Header
header_del h name = erase name h

-- A read behind a write.
pub header_get-header_set :
    (h : Header) (name value at : String)
    → header_get (header_set h name value) at ≡ (if name == at then value else header_get h at)
unfolding header_get header_set
header_get-header_set h name value at =
    ap first_value (lookup-insert name at (value ∷ []) h) ∙ pick (name == at)
  where
    pick :
        (b : Bool)
        → first_value (if b then some (value ∷ []) else lookup at h)
          ≡ (if b then value else first_value (lookup at h))
    pick true = refl
    pick false = refl

pub header_get-header_set_same :
    (h : Header) (name value : String) → header_get (header_set h name value) name ≡ value
header_get-header_set_same h name value =
    header_get-header_set h name value name
    ∙ ap (λ t. if t then value else header_get h name) ((eq_iff name name).1 refl)

pub record Url : Type 0 where
  pub scheme : String
  pub host : String
  pub path : String
  pub raw_path : String
  pub raw_query : String

-- URL.IsAbs
abbrev pub is_abs : Url → Bool
is_abs u = not (u.scheme == "")

pub record Request : Type 0 where
  pub method : String
  pub url : Option Url
  pub host : String
  pub header : Header
  pub request_uri : String
