-- ===== src/Policy/Scripts/Laws.antt =====
-- src/policy/install_script.rs and src/policy/obfuscation.rs: the two loops, with their early exits,
-- against the list of all matches.
use dep_scan.Prelude.{
  List-cases, List, [], ◌∷◌, ◌++◌, Option, none, some, if◌then◌else◌, ◌≡◌, refl, sym, arith,
  Bool-cases, inl, inr, String, true, false, ◌&&◌, is_empty, string_eq,
}
use dep_scan.Policy.{PolicyResult, pass}
use dep_scan.Policy.Context.{ScanContext, InstallScript}
use dep_scan.Policy.Scripts.{
  Severity, Pattern, Worst, Search, record_match, patterns_loop, scripts_loop, worst_result,
  install_script_evaluate, obfuscation_evaluate, install_search, obfuscation_search, Regex,
  search_scripts, no_finding, is_block_severity, blocked,
}

-- A match: its severity and its message.
abbrev pub Hit : Type 0
Hit = Severity × String

-- Every match of a pattern in a script, in the order of the loops, with no early exit.
module _ (search : Search) where
  abbrev pub pattern_hits : InstallScript → List Pattern → List Hit
  pattern_hits script [] = []
  pattern_hits script (p ∷ ps) =
      let later = pattern_hits script ps in
      if search.matches p script then (p.severity, search.message p script) ∷ later else later

  abbrev pub hits : List InstallScript → List Hit
  hits [] = []
  hits (script ∷ scripts) = pattern_hits script search.patterns ++ hits scripts

abbrev pub first_block : List Hit → Option String
first_block [] = none
first_block ((severity, msg) ∷ hs) =
    let later = first_block hs in if is_block_severity severity then some msg else later

-- The result that the matches call for.
abbrev pub decide : List Hit → PolicyResult
decide [] = pass
decide ((severity, msg) ∷ hs) = elim (first_block ((severity, msg) ∷ hs)) [
  | some m ↦ PolicyResult.block m
  | none ↦ PolicyResult.warn msg
]

-- The loops as one pass over the matches.
absorb : Worst → List Hit → Worst
absorb w [] = w
absorb w (h ∷ hs) = let rest = absorb (record_match h.0 h.1 w) hs in if blocked w then w else rest

absorb-of_blocked : (w : Worst) (hs : List Hit) → blocked w ≡ true → absorb w hs ≡ w
unfolding absorb
absorb-of_blocked w [] b = refl
absorb-of_blocked w (h ∷ hs) b = ground arith

absorb-append : (w : Worst) (hs ks : List Hit) → absorb w (hs ++ ks) ≡ absorb (absorb w hs) ks
unfolding absorb
absorb-append w [] ks = refl
absorb-append w (h ∷ hs) ks = elim (Bool-cases (blocked w)) [
  | inl b ↦ rw (b, absorb) (sym (absorb-of_blocked w ks b))
  | inr n ↦ rw n (absorb-append (record_match h.0 h.1 w) hs ks)
]

-- A match blocks an unblocked state exactly if its pattern does.
blocked-record_match :
    (severity : Severity) (msg : String) (w : Worst)
    → blocked w ≡ false
    → blocked (record_match severity msg w) ≡ is_block_severity severity
unfolding record_match
blocked-record_match severity msg w n = ground arith

module _ (search : Search) where
  patterns_loop-absorb :
      (script : InstallScript) (ps : List Pattern) (w : Worst)
      → blocked w ≡ false
      → patterns_loop search script ps w ≡ absorb w (pattern_hits search script ps)
  unfolding patterns_loop absorb
  patterns_loop-absorb script [] w n = refl
  patterns_loop-absorb script (p ∷ ps) w n = elim (Bool-cases (search.matches p script)) [
    | inr miss ↦ rw miss (patterns_loop-absorb script ps w n)
    | inl hit ↦
        let found = record_match p.severity (search.message p script) w in
        let b = blocked-record_match p.severity (search.message p script) w n in
        elim (Bool-cases (is_block_severity p.severity)) [
          | inl blocking ↦
              ground (arith, absorb-of_blocked found (pattern_hits search script ps), b, blocking)
          | inr warning ↦ ground (arith, patterns_loop-absorb script ps found, b)
        ]
  ]

  scripts_loop-absorb :
      (scripts : List InstallScript) (w : Worst)
      → blocked w ≡ false
      → scripts_loop search scripts w ≡ absorb w (hits search scripts)
  unfolding scripts_loop absorb
  scripts_loop-absorb [] w n = refl
  scripts_loop-absorb (script ∷ scripts) w n =
      let w' = patterns_loop search script search.patterns w in
      let e = patterns_loop-absorb script search.patterns w n in
      rw (absorb-append w (pattern_hits search script search.patterns) (hits search scripts)) (
        rw (← e) (elim (Bool-cases (blocked w')) [
          | inl b ↦ rw b (sym (absorb-of_blocked w' (hits search scripts) b))
          | inr n' ↦ rw n' (scripts_loop-absorb scripts w' n')
        ]))

absorb-warned :
    (msg : String) (hs : List Hit)
    → absorb (record { severity = some Severity.warn; message = some msg }) hs
      ≡ elim (first_block hs) [
        | some m ↦ record { severity = some Severity.block; message = some m }
        | none ↦ record { severity = some Severity.warn; message = some msg }
      ]
unfolding absorb record_match
absorb-warned msg [] = refl
absorb-warned msg ((Severity.warn, m) ∷ hs) = absorb-warned msg hs
absorb-warned msg ((Severity.block, m) ∷ hs) = absorb-of_blocked _ hs refl

absorb-decide : (hs : List Hit) → worst_result (absorb no_finding hs) ≡ decide hs
unfolding absorb worst_result record_match
absorb-decide [] = refl
absorb-decide ((Severity.warn, m) ∷ hs) = ground (arith, absorb-warned m hs)
absorb-decide ((Severity.block, m) ∷ hs) =
    ground
      (arith, absorb-of_blocked (record { severity = some Severity.block; message = some m }) hs)

-- The verdict of a search: the first match of a blocking pattern, in the order of the scripts and
-- within them of the patterns, blocks with its message; with none, the first match warns; with no
-- match at all the package passes. Leaving the loops early changes nothing.
pub search_scripts-decide :
    (search : Search) (scripts : List InstallScript)
    → search_scripts search scripts ≡ decide (hits search scripts)
unfolding search_scripts
search_scripts-decide search scripts =
    rw (scripts_loop-absorb search scripts no_finding refl) (absorb-decide (hits search scripts))

both_empty : (xs ys : List InstallScript) → (is_empty xs && is_empty ys) ≡ true → xs ++ ys ≡ []
both_empty [] [] e = refl
both_empty [] (y ∷ ys) e = cc
both_empty (x ∷ xs) ys e = cc

-- Both script policies return what the matches in their files call for: install hooks for one,
-- install hooks and then the other files for the other.
pub script_policies-decide :
    {Bundle : Type 0} (re : Regex) (ctx : ScanContext Bundle)
    → (install_script_evaluate re ctx
        ≡ decide (hits (install_search re ctx.metadata.name) ctx.install_scripts))
      × (obfuscation_evaluate re ctx
          ≡ decide (
              hits
                (obfuscation_search re ctx.metadata.name)
                (ctx.install_scripts ++ ctx.source_files)))
unfolding install_script_evaluate obfuscation_evaluate
script_policies-decide re ctx = (
  elim (List-cases ctx.install_scripts) [
    | inl none_found ↦ rw (none_found, install_script_evaluate) refl
    | inr (x, rest, e) ↦ rw (e, install_script_evaluate) (search_scripts-decide _ _)
  ],
  elim (Bool-cases (is_empty ctx.install_scripts && is_empty ctx.source_files)) [
    | inl nothing ↦
        rw (both_empty ctx.install_scripts ctx.source_files nothing, nothing, obfuscation_evaluate)
          refl
    | inr something ↦ rw (something, obfuscation_evaluate) (search_scripts-decide _ _)
  ],
)
