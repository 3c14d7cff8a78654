-- ===== src/Policy/Scripts.antt =====
-- src/policy/install_script.rs and src/policy/obfuscation.rs: both policies run the same two loops,
-- patterns within scripts, and keep the worst finding. The `regex` crate is a parameter.
pub mod Laws
use dep_scan.Prelude.{
  ℕ, ◌+◌, ◌-◌, ◌*◌, ◌/◌, ◌≤◌, ◌<◌, List, [], ◌∷◌, ◌++◌, Option, none, some, ltb, leb, ◌==◌,
  if◌then◌else◌, set_insert, ◌≡◌, refl, sym, arith, In, All, Bool-cases, Option-cases, inl, inr,
  ◌⊎◌, ◌↔◌, String, max, map, ap, Bool, true, false, ◌&&◌, ◌||◌, not, str_eq, eq_iff, any, all,
  is_empty, ◌≢◌, length, string_eq, set_remove, contains-In, In-contains, not-In_of_contains,
  In-set_insert,
}
use dep_scan.Prelude.Text.{
  ◌+++◌, has_prefix, contains_char, split_once, join, show, is_empty_text, all_chars,
}
use dep_scan.Policy.{PolicyResult, pass}
use Prim.Native.String
use Prim.Native.String.{slice}
use dep_scan.Policy.Context.{
  ScanContext, PackageMetadata, VulnerabilityInfo, InstallScript, GoSumDbResult, not_in_sum_db,
  network_error, parse_error, entry, SumDbEntry,
}

pub data Severity : Type 0 where
  warn block : Severity

pub data Detection : Type 0 where
  contains regex : String → Detection
  base64 : Detection

pub record Pattern : Type 0 where
  pub name : String
  pub detection : Detection
  pub severity : Severity

-- What the code asks of the `regex` crate: a search, the matches in order, and a replacement of
-- every match by nothing. An expression that does not compile matches nothing.
pub record Regex : Type 0 where
  pub is_match : String → String → Bool
  pub find_iter : String → String → List String
  pub remove_all : String → String → String

-- `worst_severity` and `worst_message`.
pub record Worst : Type 0 where
  pub severity : Option Severity
  pub message : Option String

abbrev pub is_block_severity : Severity → Bool
is_block_severity Severity.warn = false
is_block_severity Severity.block = true

-- `None => true, Some(current) => pattern.severity > current`
abbrev pub should_update : Option Severity → Severity → Bool
should_update none new = true
should_update (some Severity.warn) new = is_block_severity new
should_update (some Severity.block) new = false

abbrev pub blocked : Worst → Bool
blocked w = elim w.severity [ none ↦ false | some s ↦ is_block_severity s ]

unfoldable pub record_match : Severity → String → Worst → Worst
record_match severity message w =
    if should_update w.severity severity
    then record { severity = some severity; message = some message }
    else w

-- What one of the two policies searches for, and how it words a finding.
pub record Search : Type 0 where
  pub patterns : List Pattern
  pub matches : Pattern → InstallScript → Bool
  pub message : Pattern → InstallScript → String

module _ (search : Search) where
  -- The loop over the patterns; a match of a blocking pattern ends it.
  unfoldable pub patterns_loop : InstallScript → List Pattern → Worst → Worst
  unfolding record_match
  patterns_loop script [] w = w
  patterns_loop script (p ∷ ps) w =
      let found = record_match p.severity (search.message p script) w in
      let after_match = patterns_loop script ps found in
      let after_miss = patterns_loop script ps w in
      if search.matches p script
      then (if is_block_severity p.severity then found else after_match)
      else after_miss

  -- The loop over the scripts; it ends once the worst severity is `Block`.
  unfoldable pub scripts_loop : List InstallScript → Worst → Worst
  unfolding patterns_loop
  scripts_loop [] w = w
  scripts_loop (script ∷ scripts) w =
      let w' = patterns_loop script search.patterns w in
      let rest = scripts_loop scripts w' in if blocked w' then w' else rest

-- The final `match`.
unfoldable pub worst_result : Worst → PolicyResult
worst_result w = elim w.severity [
  | none ↦ pass
  | some severity ↦ elim w.message [
    | none ↦ pass
    | some msg ↦
        if is_block_severity severity then PolicyResult.block msg else PolicyResult.warn msg
  ]
]

abbrev pub no_finding : Worst
no_finding = record { severity = none; message = none }

unfoldable pub search_scripts : Search → List InstallScript → PolicyResult
unfolding scripts_loop worst_result
search_scripts search scripts = worst_result (scripts_loop search scripts no_finding)

-- `s.contains(needle)`
unfoldable pub contains_text : String → String → Bool
unfolding has_prefix
contains_text needle String.[] = has_prefix needle String.[]
contains_text needle (String.◌∷◌ c s) = has_prefix needle (String.◌∷◌ c s) || contains_text needle s

abbrev pattern_of : String → Detection → Severity → Pattern
pattern_of name detection severity = record {
  name = name;
  detection = detection;
  severity = severity;
}

-- `InstallScriptPolicy::patterns`
abbrev pub install_patterns : List Pattern
install_patterns =
    pattern_of "eval" (Detection.contains "eval(") Severity.block
    ∷ pattern_of "exec" (Detection.contains "exec(") Severity.block
    ∷ pattern_of "child_process" (Detection.contains "child_process") Severity.block
    ∷ pattern_of "subprocess" (Detection.contains "subprocess") Severity.block
    ∷ pattern_of "os.system" (Detection.contains "os.system") Severity.block
    ∷ pattern_of "os.popen" (Detection.contains "os.popen") Severity.block
    ∷ pattern_of "Function constructor" (Detection.contains "Function(") Severity.block
    ∷ pattern_of "base64 string" base64 Severity.warn
    ∷ pattern_of "http url" (regex "https?://") Severity.warn
    ∷ pattern_of "process.env" (Detection.contains "process.env") Severity.warn
    ∷ pattern_of "os.environ" (Detection.contains "os.environ") Severity.warn
    ∷ []

-- `compiled_patterns` of the obfuscation policy.
abbrev pub obfuscation_patterns : List Pattern
obfuscation_patterns =
    pattern_of "long_base64" (regex "[A-Za-z0-9+/=]{60,}") Severity.block
    ∷ pattern_of "hex_escape_chain" (regex "(\\\\x[0-9a-fA-F]{2}){5,}") Severity.block
    ∷ pattern_of "unicode_escape_chain" (regex "(\\\\u[0-9a-fA-F]{4}){4,}") Severity.block
    ∷ pattern_of "fromCharCode_chain" (Detection.contains "fromCharCode") Severity.block
    ∷ pattern_of "chr_chain" (regex "chr\\(\\d+\\).*chr\\(\\d+\\).*chr\\(\\d+\\)") Severity.block
    ∷ pattern_of "string_concat_url" (regex "\"ht\"\\s*\\+\\s*\"tp") Severity.warn
    ∷ pattern_of "env_concat" (regex "process\\.env\\[.*\\+") Severity.warn
    ∷ []

module _ (re : Regex) where
  unfoldable pub strip_comments : String → String
  strip_comments content = re.remove_all "/\\*[\\s\\S]*?\\*/|//[^\\n]*|#[^\\n]*" content

  unfoldable pub has_base64_string : String → Bool
  has_base64_string content =
      any (λ m. contains_char b'+' m || contains_char b'/' m || contains_char b'=' m)
        (re.find_iter "[A-Za-z0-9+/=]{40,}" content)

  abbrev pub install_search : String → Search
  install_search pkg = record {
    patterns = install_patterns;
    matches = λ p script. elim p.detection [
      | Detection.contains needle ↦ contains_text needle (strip_comments script.content)
      | regex e ↦ re.is_match e script.content
      | base64 ↦ has_base64_string script.content
    ];
    message = λ p script.
        "Suspicious pattern '" +++ p.name +++ "' found in '" +++ script.name
        +++ "' script of package '" +++ pkg +++ "'";
  }

  -- `InstallScriptPolicy::evaluate`
  unfoldable pub install_script_evaluate : {Bundle : Type 0} → ScanContext Bundle → PolicyResult
  install_script_evaluate ctx =
      if is_empty ctx.install_scripts
      then pass
      else search_scripts (install_search ctx.metadata.name) ctx.install_scripts

  abbrev pub script_scan_cap_bytes : ℕ
  script_scan_cap_bytes = 1048576

  -- The first megabyte, cut back to whole characters: `slice` takes those that fit.
  abbrev pub obfuscation_search : String → Search
  obfuscation_search pkg = record {
    patterns = obfuscation_patterns;
    matches = λ p script.
        let content = slice script.content 0 script_scan_cap_bytes in
        elim p.detection [
          | Detection.contains needle ↦ contains_text needle content
          | regex e ↦ re.is_match e content
          | base64 ↦ false
        ];
    message = λ p script.
        "Obfuscation pattern '" +++ p.name +++ "' found in '" +++ script.name
        +++ "' script of package '" +++ pkg +++ "'";
  }

  -- `ObfuscationPolicy::evaluate`
  unfoldable pub obfuscation_evaluate : {Bundle : Type 0} → ScanContext Bundle → PolicyResult
  obfuscation_evaluate ctx =
      if is_empty ctx.install_scripts && is_empty ctx.source_files
      then pass
      else search_scripts (obfuscation_search ctx.metadata.name)
          (ctx.install_scripts ++ ctx.source_files)
