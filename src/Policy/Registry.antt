-- ===== src/Policy/Registry.antt =====
-- src/policy/age.rs, popularity.rs, vulnerability.rs and dependency_confusion.rs: the policies that
-- read one part of a registry package's context.
use dep_scan.Prelude.{
  ℕ, ◌+◌, ◌-◌, ◌/◌, ◌≤◌, ◌<◌, List, [], ◌∷◌, none, some, leb, ◌==◌, if◌then◌else◌, ◌≡◌, refl, arith,
  All, Option-cases, inl, inr, ◌⊎◌, ◌↔◌, String, map, Bool, true, false, ◌&&◌, ◌||◌, str_eq,
  is_empty, ◌≢◌, length, string_eq,
}
use dep_scan.Prelude.Text.{◌+++◌, has_prefix, contains_char, split_once, join, show}
use dep_scan.Policy.{PolicyResult, pass, warn, block}
use dep_scan.Policy.Context.{ScanContext, VulnerabilityInfo}

-- The number of nanoseconds in an hour, by which `num_hours` divides towards zero.
abbrev hour : ℕ
hour = 3600000000000

-- `(now - published_at).num_hours()` of the signed difference, as text.
show_hours : ℕ → ℕ → String
show_hours now published_at =
    if leb published_at now
    then show ((now - published_at) / hour)
    else if (published_at - now) / hour == 0
    then "0"
    else "-" +++ show ((published_at - now) / hour)

-- The loop over the configured prefixes.
prefix_warning : String → List String → PolicyResult
prefix_warning name [] = pass
prefix_warning name (prefix ∷ prefixes) =
    if has_prefix prefix name
    then warn (
        "Package '" +++ name +++ "' matches internal namespace pattern '" +++ prefix
        +++ "' — possible dependency confusion")
    else prefix_warning name prefixes

-- `name.split('/').next().unwrap_or("")`: the text before the first `/`, or all of it.
abbrev pub scope_of : String → String
scope_of name = elim (split_once b'/' name) [ some r ↦ r.0 | none ↦ name ]

abbrev pub is_internal_scope : String → Bool
is_internal_scope scope =
    str_eq scope "@internal" || str_eq scope "@private" || str_eq scope "@corp"

module _ {Bundle : Type 0} where
  -- `AgePolicy::evaluate`; `now` is what `Utc::now()` returned, `min_age` counts nanoseconds.
  unfoldable pub age_evaluate : ℕ → ℕ → ScanContext Bundle → PolicyResult
  unfolding show_hours
  age_evaluate min_age now ctx = elim ctx.git_source [
    | some _ ↦ pass
    | none ↦ elim ctx.metadata.published_at [
      | none ↦
          warn ("Package '" +++ ctx.metadata.name +++ "' has no published date — cannot verify age")
      | some published_at ↦
          if leb (published_at + min_age) now
          then pass
          else block (
              "Package '"
              +++ ctx.metadata.name
              +++ "' is only "
              +++ show_hours now published_at
              +++ " hours old (minimum: "
              +++ show (min_age / hour)
              +++ " hours)")
    ]
  ]

  -- `PopularityPolicy::evaluate`
  unfoldable pub popularity_evaluate : ℕ → ScanContext Bundle → PolicyResult
  popularity_evaluate min_downloads ctx = elim ctx.metadata.downloads [
    | none ↦ pass
    | some count ↦
        if leb min_downloads count
        then pass
        else warn (
            "Package '"
            +++ ctx.metadata.name
            +++ "' has only "
            +++ show count
            +++ " downloads (minimum: "
            +++ show min_downloads
            +++ ")")
  ]

  -- `VulnerabilityPolicy::evaluate`
  unfoldable pub vulnerability_evaluate : ScanContext Bundle → PolicyResult
  vulnerability_evaluate ctx = elim ctx.osv_fetch_error [
    | some e ↦ warn (
        "vulnerability: OSV lookup failed for '" +++ ctx.metadata.name +++ "': " +++ e
        +++ " — vulnerability status is UNKNOWN, not clean")
    | none ↦
        let ids = map (λ (v : VulnerabilityInfo). v.id) ctx.vulnerabilities in
        if is_empty ctx.vulnerabilities
        then pass
        else block
            ("Found " +++ show (length ids) +++ " known vulnerability(ies): " +++ join ", " ids)
  ]

  -- `DependencyConfusionPolicy::evaluate`
  unfoldable pub dependency_confusion_evaluate : List String → ScanContext Bundle → PolicyResult
  unfolding prefix_warning
  dependency_confusion_evaluate internal_prefixes ctx = elim ctx.git_source [
    | some _ ↦ pass
    | none ↦
        let name = ctx.metadata.name in
        if is_empty internal_prefixes
        then pass
        else if has_prefix "@" name && contains_char b'/' name && is_internal_scope (scope_of name)
        then warn (
            "Package '"
            +++ name
            +++ "' uses scope '"
            +++ scope_of name
            +++ "' which matches an internal namespace pattern — possible dependency confusion")
        else prefix_warning name internal_prefixes
  ]

abbrev pub IsPass : PolicyResult → Type 0
IsPass r = r ≡ pass

abbrev pub is_warn : PolicyResult → Bool
is_warn (warn msg) = true
is_warn _ = false

abbrev pub is_block : PolicyResult → Bool
is_block (block msg) = true
is_block _ = false

prefix_warning-IsPass :
    (name : String) (prefixes : List String)
    → IsPass (prefix_warning name prefixes) ↔ All (λ p. has_prefix p name ≡ false) prefixes
unfolding prefix_warning
prefix_warning-IsPass name [] = ((λ _. tt), λ _. refl)
prefix_warning-IsPass name (p ∷ ps) = ground (arith, prefix_warning-IsPass name ps)

prefix_warning-ne-block :
    (name : String) (prefixes : List String) → is_block (prefix_warning name prefixes) ≡ false
unfolding prefix_warning
prefix_warning-ne-block name [] = refl
prefix_warning-ne-block name (p ∷ ps) = ground (arith, prefix_warning-ne-block name ps)

module _ {Bundle : Type 0} (ctx : ScanContext Bundle) where
  -- The age policy lets a registry package through exactly when it has a publication date and is
  -- at least the minimum age old; a package from git is always let through.
  pub age_evaluate-IsPass_iff :
      (min_age now : ℕ)
      → IsPass (age_evaluate min_age now ctx) ↔ (
          (ctx.git_source ≢ none)
          ⊎ ((published_at : ℕ) × (ctx.metadata.published_at ≡ some published_at)
              × (published_at + min_age ≤ now)))
  unfolding age_evaluate
  age_evaluate-IsPass_iff min_age now = elim (Option-cases ctx.git_source) [
    | inl none_git ↦ elim (Option-cases ctx.metadata.published_at) [
      | inl missing ↦ ground arith
      | inr (t, e) ↦ ((λ h. inr (t, e, ground arith)), ground arith)
    ]
    | inr (g, e) ↦ ground arith
  ]

  -- Fail closed: a failed lookup is a warning, whatever the list of vulnerabilities holds; with an
  -- answer the policy blocks exactly when the list is not empty.
  pub vulnerability_evaluate_lem :
      ((is_warn (vulnerability_evaluate ctx) ≡ true) ↔ (ctx.osv_fetch_error ≢ none))
      × ((is_block (vulnerability_evaluate ctx) ≡ true)
          ↔ ((ctx.osv_fetch_error ≡ none) × (ctx.vulnerabilities ≢ [])))
      × (IsPass (vulnerability_evaluate ctx)
          ↔ ((ctx.osv_fetch_error ≡ none) × (ctx.vulnerabilities ≡ [])))
  unfolding vulnerability_evaluate
  vulnerability_evaluate_lem = ground arith

  -- Popularity never blocks, and warns exactly when a known count is below the minimum.
  pub popularity_evaluate_lem :
      (min_downloads : ℕ)
      → (is_block (popularity_evaluate min_downloads ctx) ≡ false)
        × ((is_warn (popularity_evaluate min_downloads ctx) ≡ true)
            ↔ ((count : ℕ) × (ctx.metadata.downloads ≡ some count) × (count < min_downloads)))
  unfolding popularity_evaluate
  popularity_evaluate_lem min_downloads = elim (Option-cases ctx.metadata.downloads) [
    | inl missing ↦ ground arith
    | inr (count, e) ↦ (ground arith, ((λ h. (count, e, ground arith)), ground arith))
  ]

  -- The dependency-confusion policy never blocks. It passes exactly for a package from git, with
  -- no prefix configured, or when neither its scope nor a prefix looks internal.
  pub dependency_confusion_evaluate_lem :
      (prefixes : List String)
      → (is_block (dependency_confusion_evaluate prefixes ctx) ≡ false)
        × (IsPass (dependency_confusion_evaluate prefixes ctx) ↔ (
            (ctx.git_source ≢ none)
            ⊎ (prefixes ≡ [])
            ⊎ (((has_prefix "@" ctx.metadata.name
                    && contains_char b'/' ctx.metadata.name
                    && is_internal_scope (scope_of ctx.metadata.name))
                  ≡ false)
                × All (λ p. has_prefix p ctx.metadata.name ≡ false) prefixes)))
  unfolding dependency_confusion_evaluate
  dependency_confusion_evaluate_lem prefixes = ground (
    arith,
    prefix_warning-IsPass ctx.metadata.name prefixes,
    prefix_warning-ne-block ctx.metadata.name prefixes,
  )
