-- ===== src/Policy/Examples.antt =====
-- The policies of src/policy on concrete packages.
use dep_scan.Prelude.{
  [], ◌∷◌, none, some, ◌≡◌, refl, arith, inl, inr, String, true, false, ◌≢◌, eq_iff, sym, ◌∙◌,
}
use dep_scan.Policy.{PolicyResult, str_eq, pass}
use dep_scan.Policy.Context.{
  PackageMetadata, ScanContext, from_metadata, InstallScript, not_in_sum_db,
}
use dep_scan.Prelude.Text.{to_ascii_lowercase}
use dep_scan.Policy.Registry.{is_warn, is_block}
use dep_scan.Policy.Maintainer.{Disjoint, maintainer_evaluate, maintainer_evaluate_lem}
use dep_scan.Policy.Vcs.{
  VcsConfig, classify_ref, pinned, check_host_policy, ok, mutable_ref_evaluate, MutableRefSeverity,
}
use dep_scan.Policy.Provenance.{SumDbVerifyOutcome, go_sumdb_evaluate}
use dep_scan.Policy.Scripts.{
  Regex, install_script_evaluate, search_scripts, contains_text, install_search, strip_comments,
  obfuscation_evaluate, obfuscation_search,
}
use dep_scan.Policy.Scripts.Laws.{decide, hits, script_policies-decide}
use dep_scan.Policy.Provenance.GoSumDb.{go_sumdb_evaluate_lem}

abbrev left_pad : PackageMetadata
left_pad = record {
  name = "left-pad";
  version = "1.3.0";
  description = none;
  published_at = some 15;
  maintainers = "alice" ∷ "bob" ∷ "alice" ∷ [];
  downloads = some 12;
  repository_url = none;
  content_hash = some "sha256:ab";
}

abbrev released : ScanContext String
released = record (from_metadata left_pad) { osv_fetch_error = none }

abbrev from_git : ScanContext String
from_git = record released {
  git_source = some ("https://example.org/x.git", "0123456789abcdef0123456789ABCDEF01234567");
}

abbrev unreachable_osv : ScanContext String
unreachable_osv = record released { osv_fetch_error = some "timeout" }

abbrev handed_over : ScanContext String
handed_over = record released { previous_maintainers = some ("mallory" ∷ []) }

differs : (a b : String) → str_eq a b ≡ false → a ≢ b
differs a b e same = ground (arith, (eq_iff a b).1 same)

strangers : Disjoint ("mallory" ∷ []) ("alice" ∷ "bob" ∷ "alice" ∷ [])
strangers x (inl e) (inl e') = differs "mallory" "alice" refl (sym e ∙ e')
strangers x (inl e) (inr (inl e')) = differs "mallory" "bob" refl (sym e ∙ e')
strangers x (inr none_else) m = absurd none_else
strangers x (inl e) (inr (inr (inr none_else))) = absurd none_else
strangers x (inl e) (inr (inr (inl e'))) = differs "mallory" "alice" refl (sym e ∙ e')

maintainer_evaluate_lem_example : is_block (maintainer_evaluate true handed_over) ≡ true
unfolding from_metadata
maintainer_evaluate_lem_example =
    (maintainer_evaluate_lem true handed_over ("mallory" ∷ []) refl refl).1.1 ((λ h. cc), strangers)

commit_is_pinned : classify_ref "0123456789abcdef0123456789ABCDEF01234567" ≡ pinned
unfolding classify_ref
commit_is_pinned = refl

abbrev hosts : VcsConfig
hosts = record { allowed_hosts = "GitHub.com" ∷ []; denied_hosts = "evil.example" ∷ [] }

-- A package with published attestations and no entry in the checksum database.
abbrev attested : ScanContext String
attested = record released {
  npm_attestations = some ("zz" ∷ "ab" ∷ []);
  pypi_attestation = some (some "ab");
  go_sumdb_result = some not_in_sum_db;
}

accept_all : String → SumDbVerifyOutcome
accept_all head = SumDbVerifyOutcome.valid

go_sumdb_evaluate_lem_example : is_warn (go_sumdb_evaluate accept_all false attested) ≡ true
go_sumdb_evaluate_lem_example = (go_sumdb_evaluate_lem accept_all false attested).1.1 (refl, refl)

-- A regular-expression engine that finds nothing and strips nothing.
no_regex : Regex
no_regex = record {
  is_match = λ e content. false;
  find_iter = λ e content. [];
  remove_all = λ e content. content;
}

abbrev postinstall : InstallScript
postinstall = record { name = "postinstall"; content = "process.env; eval(x)" }

abbrev scripted : ScanContext String
scripted = record released { install_scripts = postinstall ∷ [] }

script_policies-decide_example :
    (install_script_evaluate no_regex scripted
      ≡ decide (hits (install_search no_regex "left-pad") scripted.install_scripts))
    × (obfuscation_evaluate no_regex scripted
        ≡ decide (hits (obfuscation_search no_regex "left-pad") scripted.install_scripts))
unfolding from_metadata
script_policies-decide_example = script_policies-decide no_regex scripted

scripted_blocks :
    install_script_evaluate no_regex scripted
    ≡ PolicyResult.block
        "Suspicious pattern 'eval' found in 'postinstall' script of package 'left-pad'"
unfolding from_metadata no_regex install_script_evaluate search_scripts contains_text strip_comments
scripted_blocks = refl

host_allowed : check_host_policy "github.com" hosts ≡ ok
unfolding check_host_policy to_ascii_lowercase
host_allowed = refl

git_ref_pinned : mutable_ref_evaluate MutableRefSeverity.block from_git ≡ pass
unfolding mutable_ref_evaluate classify_ref
git_ref_pinned = refl
