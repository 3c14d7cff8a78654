-- ===== src/Prelude/Sets.antt =====
-- `HashSet` and `HashMap` as lists over a key type with a Boolean equality. Iteration order is
-- never observed by the code that uses these.
use mathlib.Core.Path.{◌≡◌, refl}
use mathlib.Core.Logic.{◌⊎◌, inl, inr, ◌↔◌}
use mathlib.Core.Bool.{Bool, true, false, ◌||◌}
use mathlib.Core.Option.{Option, none, some}
use mathlib.Core.List.{List, [], ◌∷◌}
use native.Mathlib.Omega.{arith}
use text.Mathlib.Text.{◌==◌ as str_eq}
use text.Mathlib.TextEquality.{eq_iff}
use Prim.Native.String.{String}
use dep_scan.Prelude.Tests.{if◌then◌else◌, Bool-cases}
use dep_scan.Prelude.Lists.{In, Unique}

pub record Eq {ℓ} (A : Type ℓ) : Type ℓ where
  pub beq : A → A → Bool
  pub beq_iff : (a b : A) → (beq a b ≡ true) ↔ (a ≡ b)

instance abbrev pub string_eq : Eq String
string_eq = record { beq = str_eq; beq_iff = eq_iff }

module _ {A : Type 0} ⦃e : Eq A⦄ where
  unfoldable pub contains : List A → A → Bool
  contains [] a = false
  contains (x ∷ xs) a = e.beq a x || contains xs a

  -- `HashSet::insert`
  unfoldable pub set_insert : A → List A → List A
  unfolding contains
  set_insert a xs = if contains xs a then xs else a ∷ xs

  -- `HashSet::remove`
  unfoldable pub set_remove : A → List A → List A
  set_remove a [] = []
  set_remove a (x ∷ xs) = if e.beq a x then set_remove a xs else x ∷ set_remove a xs

  pub contains-In : (xs : List A) (a : A) → contains xs a ≡ true → In a xs
  unfolding contains
  contains-In [] a h = cc
  contains-In (x ∷ xs) a h = elim (Bool-cases (e.beq a x)) [
    | inl same ↦ inl ((e.beq_iff a x).0 same)
    | inr other ↦ inr (contains-In xs a (ground arith))
  ]

  pub In-contains : (xs : List A) (a : A) → In a xs → contains xs a ≡ true
  unfolding contains
  In-contains [] a h = absurd h
  In-contains (x ∷ xs) a (inl same) = ground (arith, (e.beq_iff a x).1 same)
  In-contains (x ∷ xs) a (inr h) = ground (arith, In-contains xs a h)

  pub not-In_of_contains : (xs : List A) (a : A) → contains xs a ≡ false → ¬ In a xs
  not-In_of_contains xs a h m = cc (In-contains xs a m)

  pub In-set_insert : (a b : A) (xs : List A) → In b (set_insert a xs) ↔ ((b ≡ a) ⊎ In b xs)
  unfolding set_insert
  In-set_insert a b xs = elim (Bool-cases (contains xs a)) [
    | inl old ↦
        rw old
          ((λ m. inr m), λ m. elim m [ inl same ↦ rw same (contains-In xs a old) | inr m' ↦ m' ])
    | inr new ↦ rw new ((λ m. m), λ m. m)
  ]

  pub In-set_remove : (a b : A) (xs : List A) → In b (set_remove a xs) ↔ (In b xs × (b ≡ a → ⊥))
  unfolding set_remove
  In-set_remove a b [] = ((λ m. absurd m), λ m. m.0)
  In-set_remove a b (x ∷ xs) = elim (Bool-cases (e.beq a x)) [
    | inl same ↦ ground (arith, In-set_remove a b xs, (e.beq_iff a x).0 same)
    | inr other ↦ ground (arith, In-set_remove a b xs, (e.beq_iff a x))
  ]

  pub Unique-set_insert : (a : A) (xs : List A) → Unique xs → Unique (set_insert a xs)
  unfolding set_insert
  Unique-set_insert a xs u = elim (Bool-cases (contains xs a)) [
    | inl old ↦ rw old u
    | inr new ↦ rw new (not-In_of_contains xs a new, u)
  ]

module _ {ℓ κ} {K : Type ℓ} {V : Type κ} ⦃e : Eq K⦄ where
  -- `HashMap::get`
  unfoldable pub lookup : K → List (K × V) → Option V
  lookup k [] = none
  lookup k ((j, v) ∷ m) = if e.beq k j then some v else lookup k m

  -- `HashMap::insert`
  unfoldable pub map_insert : K → V → List (K × V) → List (K × V)
  map_insert k v [] = (k, v) ∷ []
  map_insert k v ((j, w) ∷ m) = if e.beq k j then (k, v) ∷ m else (j, w) ∷ map_insert k v m

  pub lookup-map_insert :
      (k j : K) (v : V) (m : List (K × V))
      → lookup j (map_insert k v m) ≡ (if e.beq j k then some v else lookup j m)
  unfolding lookup map_insert
  lookup-map_insert k j v [] = refl
  lookup-map_insert k j v ((i, w) ∷ m) =
      ground (arith, e.beq_iff k i, e.beq_iff j i, e.beq_iff j k, lookup-map_insert k j v m)
