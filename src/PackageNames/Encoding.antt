-- ===== src/PackageNames/Encoding.antt =====
-- src/registry/go.rs: the case encoding of module paths.
use Prim.Native.Char.{Char, code}
use Prim.Native.String.{◌∷◌}
use text.Mathlib.TextEquality.{Char-path}
use dep_scan.Prelude.{
  ℕ, ◌+◌, String, true, false, Bool, ◌&&◌, leb, ◌≡◌, ap, arith, if◌then◌else◌, Bool-cases, inl, inr,
  refl, ◌≢◌, sym, ◌∙◌,
}
use dep_scan.Prelude.Text.{lower_char, contains_char}

unfoldable pub is_ascii_uppercase : ℕ → Bool
is_ascii_uppercase c = leb b'A' c && leb c b'Z'

unfoldable pub encode_module_path : String → String
unfolding is_ascii_uppercase lower_char
encode_module_path String.[] = ""
encode_module_path (c ∷ s) =
    let rest = encode_module_path s in
    if is_ascii_uppercase (code c) then "!" ∷ (lower_char c ∷ rest) else c ∷ rest

code-if : (b : Bool) (x y : Char) → code (if b then x else y) ≡ (if b then code x else code y)
code-if true x y = refl
code-if false x y = refl

code-lower_char :
    (c : Char) → is_ascii_uppercase (code c) ≡ true → code (lower_char c) ≡ code c + 32
unfolding is_ascii_uppercase lower_char
code-lower_char c h = simp (code-if) (ground arith)

cons-injective : {c d : Char} {s t : String} → (c ∷ s) ≡ (d ∷ t) → (c ≡ d) × (s ≡ t)
cons-injective h = (cc, cc)

same_cons : {c d : Char} {s t : String} → c ≡ d → s ≡ t → (c ∷ s) ≡ (d ∷ t)
same_cons e h = cc

no_cons : {c : Char} {s : String} → "" ≢ (c ∷ s)
no_cons h = cc

encode-nil : encode_module_path "" ≡ ""
unfolding encode_module_path
encode-nil = refl

same_letter :
    (c d : Char)
    → is_ascii_uppercase (code c) ≡ true
    → is_ascii_uppercase (code d) ≡ true
    → lower_char c ≡ lower_char d
    → c ≡ d
same_letter c d h k e =
    Char-path c d (omega (arith, code-lower_char c h, code-lower_char d k, ap code e))

encode-upper :
    (c : Char) (s : String)
    → is_ascii_uppercase (code c) ≡ true
    → encode_module_path (c ∷ s) ≡ "!" ∷ (lower_char c ∷ encode_module_path s)
unfolding encode_module_path
encode-upper c s h = rw h refl

encode-other :
    (c : Char) (s : String)
    → is_ascii_uppercase (code c) ≡ false
    → encode_module_path (c ∷ s) ≡ c ∷ encode_module_path s
unfolding encode_module_path
encode-other c s h = rw h refl

-- An encoded capital letter starts with an exclamation mark, which no other character does.
upper-other :
    (c d : Char) (s t : String)
    → is_ascii_uppercase (code c) ≡ true
    → is_ascii_uppercase (code d) ≡ false
    → contains_char b'!' (d ∷ t) ≡ false
    → encode_module_path (c ∷ s) ≢ encode_module_path (d ∷ t)
unfolding contains_char
upper-other c d s t h k free e =
    let same : "!" ≡ d = (cons-injective (sym (encode-upper c s h) ∙ e ∙ encode-other d t k)).0 in
    let mark : 33 ≡ code d = ap code same in ground arith

encode_module_path_injective :
    (p q : String)
    → contains_char b'!' p ≡ false
    → contains_char b'!' q ≡ false
    → encode_module_path p ≡ encode_module_path q
    → p ≡ q
unfolding contains_char
encode_module_path_injective String.[] String.[] free free_too e = refl
encode_module_path_injective String.[] (d ∷ t) free free_too e =
    elim (Bool-cases (is_ascii_uppercase (code d))) [
      | inl upper ↦ absurd (no_cons (sym encode-nil ∙ e ∙ encode-upper d t upper))
      | inr other ↦ absurd (no_cons (sym encode-nil ∙ e ∙ encode-other d t other))
    ]
encode_module_path_injective (c ∷ s) String.[] free free_too e =
    elim (Bool-cases (is_ascii_uppercase (code c))) [
      | inl upper ↦ absurd (no_cons (sym encode-nil ∙ sym e ∙ encode-upper c s upper))
      | inr other ↦ absurd (no_cons (sym encode-nil ∙ sym e ∙ encode-other c s other))
    ]
encode_module_path_injective (c ∷ s) (d ∷ t) free free_too e =
    let tails : encode_module_path s ≡ encode_module_path t → s ≡ t =
      encode_module_path_injective s t (ground arith) (ground arith) in
    elim (Bool-cases (is_ascii_uppercase (code c))) [
      | inl upper ↦ elim (Bool-cases (is_ascii_uppercase (code d))) [
        | inl upper_too ↦
            let h =
              cons-injective
                (cons-injective
                  (sym (encode-upper c s upper) ∙ e ∙ encode-upper d t upper_too)).1 in
            same_cons (same_letter c d upper upper_too h.0) (tails h.1)
        | inr other ↦ absurd (upper-other c d s t upper other free_too e)
      ]
      | inr other ↦ elim (Bool-cases (is_ascii_uppercase (code d))) [
        | inl upper ↦ absurd (upper-other d c t s upper other free (sym e))
        | inr other_too ↦
            let h =
              cons-injective (sym (encode-other c s other) ∙ e ∙ encode-other d t other_too) in
            same_cons h.0 (tails h.1)
      ]
    ]

-- Two different module paths without an exclamation mark have different encodings.
pub encode_module_path-distinct :
    (p q : String)
    → contains_char b'!' p ≡ false
    → contains_char b'!' q ≡ false
    → p ≢ q
    → encode_module_path p ≢ encode_module_path q
encode_module_path-distinct p q free free_too differ e =
    differ (encode_module_path_injective p q free free_too e)
