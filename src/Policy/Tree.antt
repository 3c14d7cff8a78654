-- ===== src/Policy/Tree.antt =====
-- src/types.rs: the scan context of a fetched git tree. A file is its path and its content as text,
-- after the lossy decoding.
use dep_scan.Prelude.{
  ℕ, List, [], ◌∷◌, none, some, if◌then◌else◌, String, Bool, true, false, ◌||◌, not, str_eq, ◌==◌,
  map, ◌≡◌, refl, arith, In, inl, inr, ◌↔◌, Bool-cases, ◌&&◌,
}
use Prim.Native.Char.{code}
use dep_scan.Prelude.Text.{contains_char, to_ascii_lowercase}
use dep_scan.Policy.{PolicyResult, PolicyDetail, from_result}
use dep_scan.Policy.Context.{ScanContext, InstallScript, PackageMetadata, from_metadata}

pub record FetchedFile : Type 0 where
  pub path : String
  pub content : String

-- `replace('\\', "/")`
unfoldable pub forward_slashes : String → String
forward_slashes String.[] = String.[]
forward_slashes (String.◌∷◌ c s) =
    String.◌∷◌ (if code c == b'\\' then "/" else c) (forward_slashes s)

-- `rsplit(separator).next()`: what follows the last separator, or everything.
unfoldable pub after_last : ℕ → String → String
after_last separator String.[] = String.[]
after_last separator (String.◌∷◌ c s) =
    if contains_char separator (String.◌∷◌ c s) then after_last separator s else String.◌∷◌ c s

-- The first half of `rsplit_once(separator)`, or everything.
unfoldable pub before_last : ℕ → String → String
before_last separator String.[] = String.[]
before_last separator (String.◌∷◌ c s) =
    if code c == separator && not (contains_char separator s)
    then String.[]
    else String.◌∷◌ c (before_last separator s)

unfoldable pub is_install_hook_path : String → Bool
unfolding after_last before_last
is_install_hook_path rel_path =
    let basename = after_last b'/' rel_path in
    let stem = to_ascii_lowercase (before_last b'.' basename) in
    str_eq (to_ascii_lowercase basename) "binding.gyp"
    || str_eq stem "preinstall"
    || str_eq stem "install"
    || str_eq stem "postinstall"

unfoldable pub script_of : FetchedFile → InstallScript
script_of file = record { name = forward_slashes file.path; content = file.content }

-- The loop over the files: those of install hooks, and the others.
unfoldable pub split_files : List FetchedFile → List InstallScript × List InstallScript
unfolding script_of is_install_hook_path
split_files [] = ([], [])
split_files (file ∷ files) =
    let (hooks, sources) = split_files files in
    let entry = script_of file in
    if is_install_hook_path entry.name then (entry ∷ hooks, sources) else (hooks, entry ∷ sources)

abbrev pub placeholder : PackageMetadata
placeholder = record {
  name = "";
  version = "";
  description = none;
  published_at = none;
  maintainers = [];
  downloads = none;
  repository_url = none;
  content_hash = none;
}

unfoldable pub from_fetched_tree : {Bundle : Type 0} → List FetchedFile → ScanContext Bundle
unfolding split_files from_metadata
from_fetched_tree files =
    let (hooks, sources) = split_files files in
    record (from_metadata placeholder) { install_scripts = hooks; source_files = sources }

unfoldable pub tree_context :
    {Bundle : Type 0} → List FetchedFile → String → String → String → ScanContext Bundle
unfolding from_fetched_tree
tree_context files url name ref =
    let ctx = from_fetched_tree files in
    record ctx {
      metadata = record ctx.metadata { name = name; version = ref };
      git_source = some (url, ref);
    }

-- A policy is its name and its `evaluate`.
abbrev pub Policy : Type 0 → Type 0
Policy Bundle = String × (ScanContext Bundle → PolicyResult)

unfoldable pub run_git_tree_policies :
    {Bundle : Type 0}
    → List FetchedFile
    → String
    → String
    → String
    → List (Policy Bundle)
    → List PolicyDetail
unfolding tree_context from_result
run_git_tree_policies {Bundle} files url name ref policies =
    map (λ (p : Policy Bundle). from_result p.0 (p.1 (tree_context files url name ref))) policies

split_files-cons :
    (file : FetchedFile) (files : List FetchedFile)
    → split_files (file ∷ files) ≡ (
        if is_install_hook_path (script_of file).name
        then (script_of file ∷ (split_files files).0, (split_files files).1)
        else ((split_files files).0, script_of file ∷ (split_files files).1))
unfolding split_files
split_files-cons file files = refl

-- Every file of a tree is in exactly the list that its path calls for, and the lists hold nothing
-- else: install hooks are scanned as such, and no file is left out.
pub In-split_files :
    (files : List FetchedFile) (script : InstallScript)
    → (In script (split_files files).0
        ↔ (In script (map script_of files) × (is_install_hook_path script.name ≡ true)))
      × (In script (split_files files).1
          ↔ (In script (map script_of files) × (is_install_hook_path script.name ≡ false)))
unfolding split_files
In-split_files [] script = (((λ m. absurd m), λ m. absurd m.0), ((λ m. absurd m), λ m. absurd m.0))
In-split_files (file ∷ files) script =
    let (hooks, sources) = In-split_files files script in
    elim (Bool-cases (is_install_hook_path (script_of file).name)) [
      | inl hook ↦ rw (split_files-cons) (rw hook (ground (arith, hooks, sources, hook)))
      | inr other ↦ rw (split_files-cons) (rw other (ground (arith, hooks, sources, other)))
    ]
