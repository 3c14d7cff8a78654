-- ===== src/Policy/Vcs.antt =====
-- src/policy/mutable_ref.rs and src/policy/vcs_host.rs: what a git dependency may be pinned to, and
-- the hosts that it may be fetched from. The URL parser of `gix` is a parameter.
use dep_scan.Prelude.{
  ℕ, List, [], ◌∷◌, Option, none, some, leb, ◌==◌, if◌then◌else◌, ◌≡◌, refl, arith, Option-cases,
  inl, inr, ◌⊎◌, ◌↔◌, String, Bool, true, false, ◌&&◌, ◌||◌, not, str_eq, any, is_empty, ◌≢◌,
  string_eq,
}
use Prim.Native.String.{len}
use dep_scan.Prelude.Text.{to_ascii_lowercase, is_empty_text_iff, ◌+++◌, is_empty_text, all_chars}
use dep_scan.Policy.{PolicyResult, pass}
use dep_scan.Policy.Context.{ScanContext}

pub data MutableRefSeverity : Type 0 where
  warn block off : MutableRefSeverity

pub data RefKind : Type 0 where
  pinned mutable : RefKind

abbrev pub is_hexdigit : ℕ → Bool
is_hexdigit c = leb b'0' c && leb c b'9' || leb b'a' c && leb c b'f' || leb b'A' c && leb c b'F'

unfoldable pub classify_ref : String → RefKind
unfolding all_chars
classify_ref ref =
    let n = len ref in
    if not (n == 40) && not (n == 64)
    then mutable
    else if all_chars is_hexdigit ref
    then pinned
    else mutable

abbrev mutable_message : String → String
mutable_message ref =
    if is_empty_text ref
    then "git dependency has no ref specified (mutable — no ref is equivalent to HEAD)"
    else "git dependency uses a mutable ref '" +++ ref
      +++ "' — pin to a full commit SHA to prevent branch-flip attacks"

abbrev pub is_pinned : RefKind → Bool
is_pinned pinned = true
is_pinned mutable = false

-- `MutableRefPolicy::evaluate`
unfoldable pub mutable_ref_evaluate :
    {Bundle : Type 0} → MutableRefSeverity → ScanContext Bundle → PolicyResult
unfolding classify_ref
mutable_ref_evaluate severity ctx = elim ctx.git_source [
  | none ↦ pass
  | some source ↦
      let ref = source.1 in
      if is_pinned (classify_ref ref) then pass else elim severity [
        | off ↦ pass
        | MutableRefSeverity.warn ↦ PolicyResult.warn (mutable_message ref)
        | MutableRefSeverity.block ↦ PolicyResult.block (mutable_message ref)
      ]
]

-- The part of `[vcs]` in the configuration that names hosts.
pub record VcsConfig : Type 0 where
  pub allowed_hosts : List String
  pub denied_hosts : List String

-- `Result<()>`
pub data Permission : Type 0 where
  ok : Permission
  err : String → Permission

-- The host of a URL, as the parser of `gix` sees it; `none` where it cannot parse the URL or sees
-- no host.
module _ (gix_host : String → Option String) where
  unfoldable pub extract_host : String → Option String
  extract_host url = if is_empty_text url then none else elim (gix_host url) [
    | none ↦ none
    | some host ↦ if is_empty_text host then none else some (to_ascii_lowercase host)
  ]

-- Whether the host stands in a configured list, in any ASCII case.
abbrev pub lists_host : List String → String → Bool
lists_host hosts host =
    any (λ entry. str_eq (to_ascii_lowercase entry) (to_ascii_lowercase host)) hosts

unfoldable pub check_host_policy : String → VcsConfig → Permission
check_host_policy host config =
    if not (is_empty config.denied_hosts) && lists_host config.denied_hosts host
    then err ("VCS host '" +++ host +++ "' is on the denied_hosts list and cannot be fetched")
    else if not (is_empty config.allowed_hosts) && not (lists_host config.allowed_hosts host)
    then err (
        "VCS host '" +++ host
        +++ "' is not in the allowed_hosts list; add it to [vcs] allowed_hosts in .dep-scan.toml to permit this host")
    else ok

unfoldable pub check_host_policy_for_url :
    (String → Option String) → String → VcsConfig → Permission
unfolding extract_host check_host_policy
check_host_policy_for_url gix_host url config = elim (extract_host gix_host url) [
  | some host ↦ check_host_policy host config
  | none ↦ err (
      "Cannot determine host from VCS URL '" +++ url
      +++ "'; refusing to fetch from an unresolvable origin (fail-closed)")
]

any-nonempty :
    (hosts : List String) (host : String) → lists_host hosts host ≡ true → is_empty hosts ≡ false
any-nonempty [] host h = cc
any-nonempty (x ∷ hosts) host h = refl

-- A host is permitted exactly when no entry of the deny list names it and the allow list is empty
-- or names it: the deny list wins.
pub check_host_policy-ok_iff :
    (host : String) (config : VcsConfig)
    → (check_host_policy host config ≡ ok) ↔ (
        (lists_host config.denied_hosts host ≡ false)
        × ((config.allowed_hosts ≡ []) ⊎ (lists_host config.allowed_hosts host ≡ true)))
unfolding check_host_policy
check_host_policy-ok_iff host config =
    ground (arith, any-nonempty config.denied_hosts host, any-nonempty config.allowed_hosts host)

-- A URL is permitted exactly when the parser finds a host in it that is not empty and whose
-- lower-case form is permitted: where no host is found, nothing is fetched.
pub check_host_policy_for_url-ok_iff :
    (gix_host : String → Option String) (url : String) (config : VcsConfig)
    → (check_host_policy_for_url gix_host url config ≡ ok) ↔ (
        (host : String) × (gix_host url ≡ some host)
        × (url ≢ "")
        × (host ≢ "")
        × (check_host_policy (to_ascii_lowercase host) config ≡ ok))
unfolding check_host_policy_for_url extract_host
check_host_policy_for_url-ok_iff gix_host url config = elim (Option-cases (gix_host url)) [
  | inl missing ↦ ground (arith, is_empty_text_iff url)
  | inr (host, e) ↦ (
    (λ h. (
      host,
      e,
      ground (arith, is_empty_text_iff url, is_empty_text_iff host),
      ground (arith, is_empty_text_iff url, is_empty_text_iff host),
      ground arith,
    )),
    λ (h, found, u, n, permitted). ground (arith, is_empty_text_iff url, is_empty_text_iff host),
  )
]

-- A ref counts as pinned exactly when it has 40 or 64 bytes, all of them hexadecimal digits.
pub classify_ref-pinned_iff :
    (ref : String)
    → (classify_ref ref ≡ pinned)
      ↔ (((len ref ≡ 40) ⊎ (len ref ≡ 64)) × (all_chars is_hexdigit ref ≡ true))
unfolding classify_ref
classify_ref-pinned_iff ref = ground arith

-- With the check on, a git dependency passes exactly when its ref is pinned; a registry dependency
-- always passes.
pub mutable_ref_evaluate-pass_iff :
    {Bundle : Type 0} (severity : MutableRefSeverity) (ctx : ScanContext Bundle)
    → severity ≢ off
    → (mutable_ref_evaluate severity ctx ≡ pass) ↔ (
        (ctx.git_source ≡ none)
        ⊎ ((url ref : String) × (ctx.git_source ≡ some (url, ref)) × (classify_ref ref ≡ pinned)))
unfolding mutable_ref_evaluate
mutable_ref_evaluate-pass_iff severity ctx on = elim (Option-cases ctx.git_source) [
  | inl missing ↦ ground arith
  | inr (source, e) ↦ ((λ h. inr (source.0, source.1, e, ground arith)), ground arith)
]
