-- ===== src/Policy/Maintainer.antt =====
-- src/policy/maintainer.rs: maintainer change. The sets are lists here; where a message lists their
-- members, the source's order is that of a hash set, and this one that of the list.
use dep_scan.Prelude.{
  All-In, All-of_In, List, [], ◌∷◌, ◌++◌, none, some, ◌==◌, if◌then◌else◌, contains, set_insert,
  ◌≡◌, refl, arith, In, All, Bool-cases, inl, inr, ◌↔◌, String, Bool, true, false, ◌&&◌, not,
  is_empty, ◌≢◌, string_eq, contains-In, not-In_of_contains, In-set_insert,
}
use dep_scan.Prelude.Text.{◌+++◌, join}
use dep_scan.Policy.Registry.{is_block}
use dep_scan.Policy.{PolicyResult, pass, warn, block}
use dep_scan.Policy.Context.{ScanContext}

-- `iter().collect::<HashSet<_>>()`
unfoldable pub to_set : List String → List String
to_set [] = []
to_set (x ∷ xs) = set_insert x (to_set xs)

-- `a.difference(&b)`
unfoldable pub difference : List String → List String → List String
difference [] ys = []
difference (x ∷ xs) ys = if contains ys x then difference xs ys else x ∷ difference xs ys

-- `a.intersection(&b)`
unfoldable pub intersection : List String → List String → List String
intersection [] ys = []
intersection (x ∷ xs) ys = if contains ys x then x ∷ intersection xs ys else intersection xs ys

abbrev part : String → List String → List String
part label names = if is_empty names then [] else (label +++ " [" +++ join ", " names +++ "]") ∷ []

-- `MaintainerChangePolicy::evaluate`
unfoldable pub maintainer_evaluate : {Bundle : Type 0} → Bool → ScanContext Bundle → PolicyResult
unfolding to_set difference intersection
maintainer_evaluate first_seen_warning ctx =
    let name = ctx.metadata.name in
    elim ctx.git_source [
      | some source ↦ pass
      | none ↦ elim ctx.previous_maintainers [
        | none ↦
            if first_seen_warning && (elim ctx.metadata.downloads [ none ↦ 0 | some n ↦ n ] == 0)
            then warn (
                "First observation of '" +++ name
                +++ "': maintainer set recorded as baseline; package has zero known downloads — verify publisher identity")
            else pass
        | some previous ↦
            let prev_set = to_set previous in
            let curr_set = to_set ctx.metadata.maintainers in
            let added = difference curr_set prev_set in
            let removed = difference prev_set curr_set in
            if is_empty added && is_empty removed
            then pass
            else if not (is_empty prev_set) && is_empty (intersection prev_set curr_set)
            then block (
                "Complete maintainer changeover for '"
                +++ name
                +++ "': removed ["
                +++ join ", " removed
                +++ "], added ["
                +++ join ", " added
                +++ "]")
            else warn (
                "Maintainers of '"
                +++ name
                +++ "' changed: "
                +++ join ", " (part "added" added ++ part "removed" removed))
      ]
    ]

In-to_set : (x : String) (xs : List String) → In x (to_set xs) ↔ In x xs
unfolding to_set
In-to_set x [] = ((λ m. m), λ m. m)
In-to_set x (y ∷ ys) = ground (arith, In-set_insert y x (to_set ys), In-to_set x ys)

difference-empty :
    (xs ys : List String) → (is_empty (difference xs ys) ≡ true) ↔ All (λ x. In x ys) xs
unfolding difference
difference-empty [] ys = ((λ _. tt), λ _. refl)
difference-empty (x ∷ xs) ys = elim (Bool-cases (contains ys x)) [
  | inl known ↦ rw known (
    (λ h. (contains-In ys x known, (difference-empty xs ys).0 h)),
    λ h. (difference-empty xs ys).1 h.1,
  )
  | inr new ↦ rw new ((λ h. cc), λ h. absurd (not-In_of_contains ys x new h.0))
]

intersection-empty :
    (xs ys : List String) → (is_empty (intersection xs ys) ≡ true) ↔ All (λ x. ¬ In x ys) xs
unfolding intersection
intersection-empty [] ys = ((λ _. tt), λ _. refl)
intersection-empty (x ∷ xs) ys = elim (Bool-cases (contains ys x)) [
  | inl known ↦ rw known ((λ h. cc), λ h. absurd (h.0 (contains-In ys x known)))
  | inr new ↦ rw new (
    (λ h. (not-In_of_contains ys x new, (intersection-empty xs ys).0 h)),
    λ h. (intersection-empty xs ys).1 h.1,
  )
]

-- The two lists name the same maintainers.
abbrev pub SameNames : List String → List String → Type 0
SameNames xs ys = (x : String) → In x xs ↔ In x ys

-- The two lists have no maintainer in common.
abbrev pub Disjoint : List String → List String → Type 0
Disjoint xs ys = (x : String) → In x xs → ¬ In x ys

same-of_empty :
    (xs ys : List String)
    → (is_empty (difference (to_set ys) (to_set xs))
          && is_empty (difference (to_set xs) (to_set ys))
        ≡ true)
      ↔ SameNames xs ys
same-of_empty xs ys =
    let d = difference-empty (to_set ys) (to_set xs) in
    let d' = difference-empty (to_set xs) (to_set ys) in
    let from = λ (ps qs : List String). λ (a : All (λ x. In x (to_set qs)) (to_set ps)).
      λ (x : String). λ (m : In x ps).
        (In-to_set x qs).0
          (All-In (λ x. In x (to_set qs)) (to_set ps) x a ((In-to_set x ps).1 m)) in
    let into = λ (ps qs : List String). λ (f : (x : String) → In x ps → In x qs).
      All-of_In (λ x. In x (to_set qs)) (to_set ps)
        (λ x m. (In-to_set x qs).1 (f x ((In-to_set x ps).0 m))) in
    (
      λ h. λ x. (from xs ys (d'.0 (ground arith)) x, from ys xs (d.0 (ground arith)) x),
      λ same.
          let e = d.1 (into ys xs (λ x. (same x).1)) in
          let e' = d'.1 (into xs ys (λ x. (same x).0)) in rw (e, e') refl,
    )

Disjoint-of_empty :
    (xs ys : List String)
    → (is_empty (intersection (to_set xs) (to_set ys)) ≡ true) ↔ Disjoint xs ys
Disjoint-of_empty xs ys =
    let i = intersection-empty (to_set xs) (to_set ys) in
    (
      λ h. λ x m n.
          All-In (λ x. ¬ In x (to_set ys)) (to_set xs) x (i.0 h) ((In-to_set x xs).1 m)
            ((In-to_set x ys).1 n),
      λ apart. i.1 (
          All-of_In (λ x. ¬ In x (to_set ys)) (to_set xs)
            (λ x m n. apart x ((In-to_set x xs).0 m) ((In-to_set x ys).0 n))),
    )

empty-not_In : (x : String) (ys : List String) → is_empty ys ≡ true → ¬ In x ys
empty-not_In x [] e m = m
empty-not_In x (y ∷ ys) e m = cc

to_set-empty : (xs : List String) → (is_empty (to_set xs) ≡ true) ↔ (xs ≡ [])
unfolding to_set
to_set-empty [] = ((λ _. refl), λ _. refl)
to_set-empty (x ∷ xs) = (
  (λ h.
      absurd (
        empty-not_In x (set_insert x (to_set xs)) h
          ((In-set_insert x x (to_set xs)).1 (inl refl)))),
  λ h. cc,
)

-- The three outcomes by their two tests.
change-outcome :
    (same gone : Bool) (m n : String)
    → (((if same then pass else if gone then block m else warn n) ≡ pass) ↔ (same ≡ true))
      × ((is_block (if same then pass else if gone then block m else warn n) ≡ true)
          ↔ ((same ≡ false) × (gone ≡ true)))
change-outcome same gone m n = ground arith

-- Lists with the same members are not disjoint, unless they are empty.
not-Disjoint_of_SameNames : (xs ys : List String) → xs ≢ [] → SameNames xs ys → ¬ Disjoint xs ys
not-Disjoint_of_SameNames [] ys some_name same apart = some_name refl
not-Disjoint_of_SameNames (x ∷ xs) ys some_name same apart =
    apart x (inl refl) ((same x).0 (inl refl))

-- With a maintainer history, a registry package passes exactly when the maintainers are the same
-- as before, in any order and multiplicity, and is blocked exactly when there were some before and
-- none of them is left; anything in between is a warning.
pub maintainer_evaluate_lem :
    {Bundle : Type 0} (first_seen_warning : Bool) (ctx : ScanContext Bundle)
    (previous : List String)
    → ctx.git_source ≡ none
    → ctx.previous_maintainers ≡ some previous
    → ((maintainer_evaluate first_seen_warning ctx ≡ pass)
        ↔ SameNames previous ctx.metadata.maintainers)
      × ((is_block (maintainer_evaluate first_seen_warning ctx) ≡ true)
          ↔ ((previous ≢ []) × Disjoint previous ctx.metadata.maintainers))
unfolding maintainer_evaluate
maintainer_evaluate_lem first_seen_warning ctx previous registry history =
    let same = same-of_empty previous ctx.metadata.maintainers in
    let apart = Disjoint-of_empty previous ctx.metadata.maintainers in
    let some_before = to_set-empty previous in
    let o =
      change-outcome
        (is_empty (difference (to_set ctx.metadata.maintainers) (to_set previous))
          && is_empty (difference (to_set previous) (to_set ctx.metadata.maintainers)))
        (not (is_empty (to_set previous))
          && is_empty (intersection (to_set previous) (to_set ctx.metadata.maintainers))) in
    rw (registry, history, maintainer_evaluate)
      (
        ((λ h. same.0 ((o _ _).0.0 h)), λ h. (o _ _).0.1 (same.1 h)),
        (
          (λ h.
              let (changed, gone) = (o _ _).1.0 h in
              ((λ e. absurd (ground (arith, some_before.1 e))), apart.0 (ground arith))),
          λ (some_name, none_left). (o _ _).1.1 (
            elim (Bool-cases (
                is_empty (difference (to_set ctx.metadata.maintainers) (to_set previous))
                && is_empty (difference (to_set previous) (to_set ctx.metadata.maintainers)))) [
                  | inl t ↦ absurd (
                      not-Disjoint_of_SameNames previous ctx.metadata.maintainers some_name
                        (same.0 t) none_left)
                  | inr f ↦ f
                ],
            elim (Bool-cases (is_empty (to_set previous))) [
              | inl t ↦ absurd (some_name (some_before.0 t))
              | inr f ↦ ground (arith, apart.1 none_left)
            ],
          ),
        ),
      )
