-- ===== src/Cache/Laws.antt =====
-- src/main.rs: the gates of a cached verdict.
use dep_scan.Prelude.{
  List, Option, none, some, String, true, false, ◌≡◌, ◌≢◌, refl, arith, ◌↔◌, Option-cases, inl, inr,
  eq_iff, ◌⊎◌, subst, sym,
}
use dep_scan.Prelude.Results.{Result, ok, err}
use dep_scan.Prelude.Text.{has_prefix, is_empty_text_iff}
use dep_scan.Policy.{PolicyDetail, aggregate_results}
use dep_scan.Policy.Vcs.{RefKind, pinned, mutable}
use dep_scan.Cache.{
  CacheEntry, HashVerifyDecision, honor_cache, reverify, hit, normalize_hash_prefix, verify_hash,
  decide_git_cache_action, CacheProvenance, attributed_cache_hit, verified_cache_hit,
}

module _ (to_lowercase : String → String) where
  -- Two hashes that vouch for each other: neither is empty, they agree once their algorithm names are
  -- in lower case, and the algorithm is not SHA-1.
  pub record Matching (cached registry : Option String) : Type 0 where
    pub c : String
    pub r : String
    pub have : cached ≡ some c
    pub published : registry ≡ some r
    pub c_nonempty : c ≢ ""
    pub r_nonempty : r ≢ ""
    pub strong : has_prefix "sha1:" (normalize_hash_prefix to_lowercase c) ≡ false
    pub same : normalize_hash_prefix to_lowercase c ≡ normalize_hash_prefix to_lowercase r

  -- A cached verdict is honoured exactly when both hashes are there and vouch for each other; a SHA-1
  -- hash never does.
  pub verify_hash-honor_iff :
      (cached registry : Option String)
      → (verify_hash to_lowercase cached registry ≡ honor_cache) ↔ Matching cached registry
  unfolding verify_hash
  verify_hash-honor_iff none registry =
      ((λ h. absurd (ground arith)), λ m. absurd (ground (arith, m.have)))
  verify_hash-honor_iff (some c) none =
      ((λ h. absurd (ground arith)), λ m. absurd (ground (arith, m.published)))
  verify_hash-honor_iff (some c) (some r) = (
    (λ h. record {
      c = c;
      r = r;
      have = refl;
      published = refl;
      c_nonempty = ground (arith, is_empty_text_iff c);
      r_nonempty = ground (arith, is_empty_text_iff r);
      strong = ground arith;
      same = ground (
        arith,
        eq_iff (normalize_hash_prefix to_lowercase c) (normalize_hash_prefix to_lowercase r),
      );
    }),
    λ m.
        let e : c ≡ m.c = ground (arith, m.have) in
        let f : r ≡ m.r = ground (arith, m.published) in
        let strong : has_prefix "sha1:" (normalize_hash_prefix to_lowercase c) ≡ false =
          rw e (m.strong) in
        let same : normalize_hash_prefix to_lowercase c ≡ normalize_hash_prefix to_lowercase r =
          rw (e, f) (m.same) in
        let c_some : c ≢ "" = rw e (m.c_nonempty) in
        let r_some : r ≢ "" = rw f (m.r_nonempty) in
        ground (
          arith,
          is_empty_text_iff c,
          is_empty_text_iff r,
          eq_iff (normalize_hash_prefix to_lowercase c) (normalize_hash_prefix to_lowercase r),
        ),
  )

  decision-cases : (d : HashVerifyDecision) → (d ≡ honor_cache) ⊎ (d ≡ reverify)
  decision-cases honor_cache = inl refl
  decision-cases reverify = inr refl

  -- A git row is served exactly for a pinned ref with a row whose hash vouches for the expected one.
  pub decide_git_cache_action-hit_iff :
      (kind : RefKind) (lookup : Option (String × Option String)) (expected : Option String)
      (result : String)
      → (decide_git_cache_action to_lowercase kind lookup expected ≡ hit result) ↔ (
          (kind ≡ pinned)
          × ((cached : Option String) × (lookup ≡ some (result, cached))
              × (verify_hash to_lowercase cached expected ≡ honor_cache)))
  unfolding decide_git_cache_action
  decide_git_cache_action-hit_iff mutable lookup expected result =
      ((λ h. absurd (ground arith)), λ h. absurd (ground arith))
  decide_git_cache_action-hit_iff pinned none expected result =
      ((λ h. absurd (ground arith)), λ h. absurd (ground arith))
  decide_git_cache_action-hit_iff pinned (some (stored, cached)) expected result =
      elim (decision-cases (verify_hash to_lowercase cached expected)) [
        | inl honoured ↦ ((λ h. (refl, (cached, ground arith, honoured))), λ h. ground arith)
        | inr refused ↦ ((λ h. absurd (ground arith)), λ h. absurd (ground arith))
      ]

same_row :
    {a b : CacheEntry}
    → ◌≡◌ {A = Result (Option CacheEntry) String} (ok (some a)) (ok (some b))
    → a ≡ b
same_row h = cc

-- The attribution of a row.
abbrev pub Attributed :
    (String → Option (List PolicyDetail))
    → CacheEntry
    → List PolicyDetail
    → CacheProvenance
    → Type 0
Attributed from_str entry parsed provenance =
    ((json : String) × (entry.policies_json ≡ some json) × (from_str json ≡ some parsed))
    × ((version : String) × (entry.dep_scan_version ≡ some version)
        × (provenance
            ≡ record { hit = true; scanned_at = entry.scanned_at; dep_scan_version = version }))
    × ((aggregate_results parsed).0 ≡ entry.result)

-- A row passes the attribution gate exactly when the version that wrote it is there, its policies are
-- there and parse, and their aggregate is the row's own result.
pub attributed_cache_hit-some_iff :
    (from_str : String → Option (List PolicyDetail)) (entry : CacheEntry)
    (parsed : List PolicyDetail) (provenance : CacheProvenance)
    → (attributed_cache_hit from_str entry ≡ some (parsed, provenance))
      ↔ Attributed from_str entry parsed provenance
unfolding attributed_cache_hit
attributed_cache_hit-some_iff from_str entry parsed provenance =
    elim (Option-cases entry.dep_scan_version) [
      | inl unversioned ↦ ((λ h. absurd (ground arith)), λ h. absurd (ground arith))
      | inr (version, v) ↦ elim (Option-cases entry.policies_json) [
        | inl unattributed ↦ ((λ h. absurd (ground arith)), λ h. absurd (ground arith))
        | inr (json, j) ↦ elim (Option-cases (from_str json)) [
          | inl unparsed ↦ ((λ h. absurd (ground arith)), λ h. absurd (ground arith))
          | inr (ps, p) ↦ (
            (λ h. (
              (json, j, ground (arith, eq_iff (aggregate_results ps).0 entry.result)),
              (version, v, ground (arith, eq_iff (aggregate_results ps).0 entry.result)),
              ground (arith, eq_iff (aggregate_results ps).0 entry.result),
            )),
            λ h. ground (arith, eq_iff (aggregate_results ps).0 entry.result),
          )
        ]
      ]
    ]

-- A cached verdict is served for a package of the flat scan, with its policies and provenance, exactly
-- when the lookup finds a row whose content hash vouches for the one that the registry publishes now,
-- and the version that wrote the row is there, its policies are there and parse, and their aggregate is
-- the row's own result.
pub verified_cache_hit-some_iff :
    (to_lowercase : String → String) (from_str : String → Option (List PolicyDetail))
    (lookup_result : Result (Option CacheEntry) String) (fresh_hash : Option String)
    (parsed : List PolicyDetail) (provenance : CacheProvenance)
    → (verified_cache_hit to_lowercase from_str lookup_result fresh_hash
        ≡ some (parsed, provenance))
      ↔ ((entry : CacheEntry) × (lookup_result ≡ ok (some entry))
          × Matching to_lowercase entry.content_hash fresh_hash
          × Attributed from_str entry parsed provenance)
unfolding verified_cache_hit
verified_cache_hit-some_iff to_lowercase from_str (err e) fresh_hash parsed provenance =
    ((λ h. absurd (ground arith)), λ h. absurd (ground arith))
verified_cache_hit-some_iff to_lowercase from_str (ok none) fresh_hash parsed provenance =
    ((λ h. absurd (ground arith)), λ h. absurd (ground arith))
verified_cache_hit-some_iff to_lowercase from_str (ok (some entry)) fresh_hash parsed provenance =
    let gate = attributed_cache_hit-some_iff from_str entry parsed provenance in
    elim (decision-cases to_lowercase (verify_hash to_lowercase entry.content_hash fresh_hash)) [
      | inl honoured ↦ (
        (λ h. (
          entry,
          refl,
          (verify_hash-honor_iff to_lowercase entry.content_hash fresh_hash).0 honoured,
          gate.0 (rw (honoured, verified_cache_hit) at h),
        )),
        λ (found, same, matching, attributed).
            rw (honoured, verified_cache_hit)
              (gate.1 (
                subst (λ e. Attributed from_str e parsed provenance) (same_row (sym same))
                  attributed)),
      )
      | inr refused ↦ (
        (λ h. let nothing = rw (refused, verified_cache_hit) at h in absurd (cc)),
        λ (found, same, matching, attributed).
            let vouched =
              subst (λ (e : CacheEntry). Matching to_lowercase e.content_hash fresh_hash)
                (same_row (sym same)) matching in
            let honoured =
              (verify_hash-honor_iff to_lowercase entry.content_hash fresh_hash).1 vouched in
            absurd (ground (arith, honoured, refused)),
      )
    ]
