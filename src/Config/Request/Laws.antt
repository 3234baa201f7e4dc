-- ===== src/Config/Request/Laws.antt =====
-- Laws of paths, headers, tokens and secret references.
use Prim.Native.String.{◌++◌}
use Prim.Native.Char.{char}
use scia.Go.CutLaws.{Without, cut_sound, cut_complete}
use text.Mathlib.TextLemmas.{nil-append, cons-append}
use scia.Base.{
  String, List, Char, All, ◌≡◌, ◌≢◌, refl, sym, ap, ◌∙◌, arith, eq_iff, Text-cases, inl, inr, true,
  false, ok, some, ◌↔◌, ◌⊎◌, Option-cases, test_of_ne,
}
use scia.Go.{trim_prefix, cut}
use scia.Go.Http.{header_get, Url, Request, is_abs}
use scia.Go.PathLaws.{IsPlain, rooted, clean_rooted-IsPlain, clean_rooted_of_IsPlain, rooted-ne}
use scia.Config.Request.{
  normalize_path, target_of, target_url, is_authorized_bearer_token, secret_ref_parts,
  ref_namespace, ref_rest,
}

-- Whatever the text, NormalizePath gives a rooted path of plain elements: none is empty, "." or
-- "..", and none holds a slash.
pub normalize_path-IsPlain :
    (value : String) → (ps : List String) × (normalize_path value ≡ rooted ps) × All IsPlain ps
unfolding normalize_path rooted
normalize_path-IsPlain value = elim (Text-cases value "") [
  | inl e ↦ (List.[], rw e refl, tt)
  | inr e ↦ rw e (clean_rooted-IsPlain (trim_prefix value "/"))
]

-- A path of plain elements is normal.
pub normalize_path-rooted :
    (ps : List String) → All IsPlain ps → normalize_path (rooted ps) ≡ rooted ps
unfolding normalize_path
normalize_path-rooted ps h = rw (rooted-ne ps) (clean_rooted_of_IsPlain ps h)

-- Normalizing a path twice is normalizing it once.
pub normalize_path_idempotent :
    (value : String) → normalize_path (normalize_path value) ≡ normalize_path value
normalize_path_idempotent value =
    let (ps, e, h) = normalize_path-IsPlain value in
    ap normalize_path e ∙ normalize_path-rooted ps h ∙ sym e

-- A target's path is normal; an absolute URL keeps its scheme, host and query, and a relative one
-- goes over http to the request's host, which is not empty.
pub target_url_sound :
    (r : Request) {t : Url}
    → target_url r ≡ ok t
    → (u : Url) × (r.url ≡ some u)
      × (normalize_path t.path ≡ t.path)
      × (t.path ≡ normalize_path u.path)
      × (t.raw_query ≡ u.raw_query)
      × (((is_abs u ≡ true) × (t.scheme ≡ u.scheme) × (t.host ≡ u.host))
          ⊎ ((is_abs u ≡ false) × (t.scheme ≡ "http") × (t.host ≡ r.host) × (r.host ≢ "")))
unfolding target_url target_of
target_url_sound r {t} h = elim (Option-cases r.url) [
  | inl e ↦ absurd (ground arith)
  | inr (u, e) ↦ (
    u,
    e,
    ground (arith, normalize_path_idempotent u.path),
    ground arith,
    ground arith,
    ground (arith, eq_iff r.host ""),
  )
]

-- The fields that are between the client and the proxy alone.
abbrev pub IsProxyField : String → Type 0
IsProxyField name =
    (name ≡ "Proxy-Authorization")
    ⊎ (name ≡ "Proxy-Connection")
    ⊎ (name ≡ "Connection")
    ⊎ (name ≡ "Keep-Alive")

-- A token is checked only if there is one, and then the whole header has to be it.
pub is_authorized_bearer_token_iff :
    (r : Request) (token : String)
    → (is_authorized_bearer_token r token ≡ true)
      ↔ ((token ≢ "") × (header_get r.header "Authorization" ≡ "Bearer " ++ token))
unfolding is_authorized_bearer_token
is_authorized_bearer_token_iff r token =
    ground
      (arith, eq_iff token "", eq_iff (header_get r.header "Authorization") ("Bearer " ++ token))

abbrev dot : Char
dot = char b'.' tt

-- A secret reference: a namespace and a provider with no dot, and a key, none of them empty.
pub record IsRef (ref namespace provider key : String) : Type 0 where
  pub whole : ref ≡ namespace ++ ("." ++ (provider ++ ("." ++ key)))
  pub namespace_shape : Without b'.' namespace × (namespace ≢ "")
  pub provider_shape : Without b'.' provider × (provider ≢ "")
  pub key_set : key ≢ ""

ref_rest_sound :
    (ref namespace rest : String) {id key : String}
    → ref ≡ namespace ++ ("." ++ rest)
    → Without b'.' namespace × (namespace ≢ "")
    → ref_rest ref namespace (cut rest b'.') ≡ ok (id, key)
    → (namespace' provider : String) × IsRef ref namespace' provider key
      × (id ≡ namespace' ++ ("." ++ provider))
unfolding ref_rest
ref_rest_sound ref namespace rest {id} {key} whole shape h = elim (Option-cases (cut rest b'.')) [
  | inl e ↦ absurd (ground arith)
  | inr ((provider, k), e) ↦
      let (p, w) = cut_sound dot rest provider k e in
      let same : k ≡ key = ground arith in
      (
        namespace,
        provider,
        record {
          whole =
              whole
              ∙ ap (λ t. namespace ++ ("." ++ t)) (p ∙ rw (same, cons-append, nil-append) refl);
          namespace_shape = shape;
          provider_shape = (w, ground (arith, eq_iff provider ""));
          key_set = ground (arith, eq_iff k "");
        },
        ground arith,
      )
]

ref_namespace_sound :
    (ref namespace rest : String) {id key : String}
    → cut ref b'.' ≡ some (namespace, rest)
    → ref_namespace ref (some (namespace, rest)) ≡ ok (id, key)
    → (namespace' provider : String) × IsRef ref namespace' provider key
      × (id ≡ namespace' ++ ("." ++ provider))
unfolding ref_namespace
ref_namespace_sound ref namespace rest e h =
    let (p, w) = cut_sound dot ref namespace rest e in
    ref_rest_sound ref namespace rest (p ∙ rw (cons-append, nil-append) refl)
      (w, ground (arith, eq_iff namespace "")) (ground arith)

-- What SecretRefParts accepts it cuts at the first two dots.
pub secret_ref_parts_sound :
    (ref : String) {id key : String}
    → secret_ref_parts ref ≡ ok (id, key)
    → (namespace provider : String) × IsRef ref namespace provider key
      × (id ≡ namespace ++ ("." ++ provider))
unfolding secret_ref_parts
secret_ref_parts_sound ref {id} {key} h = elim (Option-cases (cut ref b'.')) [
  | inl e ↦ absurd (ground arith)
  | inr ((namespace, rest), e) ↦ ref_namespace_sound ref namespace rest e (ground arith)
]

-- It accepts every reference.
pub secret_ref_parts_complete :
    (ref namespace provider key : String)
    → IsRef ref namespace provider key
    → secret_ref_parts ref ≡ ok (namespace ++ ("." ++ provider), key)
unfolding secret_ref_parts ref_namespace ref_rest
secret_ref_parts_complete ref namespace provider key r =
    let rest = provider ++ ("." ++ key) in
    let first : cut ref b'.' ≡ some (namespace, rest) =
      rw (r.whole, cons-append, nil-append) (cut_complete dot namespace rest r.namespace_shape.0) in
    let second : cut rest b'.' ≡ some (provider, key) =
      rw (cons-append, nil-append) (cut_complete dot provider key r.provider_shape.0) in
    rw (first, second)
      (rw
        (
          test_of_ne namespace "" r.namespace_shape.1,
          test_of_ne provider "" r.provider_shape.1,
          test_of_ne key "" r.key_set,
        )
        refl)
