-- ===== src/Typosquat/Script.antt =====
-- src/typosquat.rs: edits of one name into another, and their least number by recursion.
use dep_scan.Prelude.{
  ℕ, suc, ◌+◌, ◌≤◌, min, List, [], ◌∷◌, ◌++◌, ◌≡◌, ◌⊎◌, refl, sym, arith, ◌==◌, length, ap, subst,
  append_assoc, append-nil, inl, inr, Bool-cases, ==_iff, ◌∙◌,
}
use dep_scan.Typosquat.{cost}

-- A way to edit one list into another, with its number of insertions, deletions and substitutions.
pub data Script : ℕ → List ℕ → List ℕ → Type 0 where
  done : Script 0 [] []
  keep : {n x : ℕ} {a b : List ℕ} → Script n a b → Script n (x ∷ a) (x ∷ b)
  substitute : {n x y : ℕ} {a b : List ℕ} → Script n a b → Script (suc n) (x ∷ a) (y ∷ b)
  delete : {n x : ℕ} {a b : List ℕ} → Script n a b → Script (suc n) (x ∷ a) b
  insert : {n y : ℕ} {a b : List ℕ} → Script n a b → Script (suc n) a (y ∷ b)

-- The least number by recursion on both lists.
unfoldable pub least : List ℕ → List ℕ → ℕ
least [] b = length b
least (x ∷ a) [] = suc (length a)
least (x ∷ a) (y ∷ b) = min (min (least a (y ∷ b) + 1) (least (x ∷ a) b + 1)) (least a b + cost x y)

insert_all : (b : List ℕ) → Script (length b) [] b
insert_all [] = done
insert_all (y ∷ b) = insert (insert_all b)

delete_all : (a : List ℕ) → Script (length a) a []
delete_all [] = done
delete_all (x ∷ a) = delete (delete_all a)

min_of_three : (p q r : ℕ) → (min (min p q) r ≡ p) ⊎ ((min (min p q) r ≡ q) ⊎ (min (min p q) r ≡ r))
min_of_three p q r = ground arith

recount : {m n : ℕ} {a b : List ℕ} → m ≡ n → Script m a b → Script n a b
recount {a = a} {b = b} e s = subst (λ k. Script k a b) e s

-- Keeping or substituting the first characters, whichever fits.
align : (x y n : ℕ) (a b : List ℕ) → Script n a b → Script (n + cost x y) (x ∷ a) (y ∷ b)
align x y n a b s = elim (Bool-cases (x == y)) [
  | inl same ↦
      let e : x ≡ y = (==_iff x y).0 same in
      let kept : Script n (x ∷ a) (y ∷ b) = subst (λ z. Script n (x ∷ a) (z ∷ b)) e (keep s) in
      recount (ground arith) kept
  | inr other ↦ recount (ground arith) (substitute s)
]

pub least-Script : (a b : List ℕ) → Script (least a b) a b
unfolding least
least-Script [] b = insert_all b
least-Script (x ∷ a) [] = delete (delete_all a)
least-Script (x ∷ a) (y ∷ b) =
    let removed = delete {x = x} (least-Script a (y ∷ b)) in
    let added = insert {y = y} (least-Script (x ∷ a) b) in
    let aligned = align x y (least a b) a b (least-Script a b) in
    elim (min_of_three (least a (y ∷ b) + 1) (least (x ∷ a) b + 1) (least a b + cost x y)) [
      | inl first ↦ recount (ground arith) removed
      | inr (inl second) ↦ recount (ground arith) added
      | inr (inr third) ↦ recount (ground arith) aligned
    ]

least-nil : (a : List ℕ) → least a [] ≡ length a
unfolding least
least-nil [] = refl
least-nil (x ∷ a) = refl

least-delete : (x : ℕ) (a b : List ℕ) → least (x ∷ a) b ≤ suc (least a b)
unfolding least
least-delete x a [] = omega (arith, least-nil a)
least-delete x a (y ∷ b) = omega arith

least-insert : (y : ℕ) (a b : List ℕ) → least a (y ∷ b) ≤ suc (least a b)
unfolding least
least-insert y [] b = omega arith
least-insert y (x ∷ a) b = omega arith

pub least_lower : (m : ℕ) (a b : List ℕ) → Script m a b → least a b ≤ m
unfolding least
least_lower _ _ _ done = omega arith
least_lower _ _ _ (keep {n} {x} {a} {b} s) = ground (arith, least_lower n a b s)
least_lower _ _ _ (substitute {n} {x} {y} {a} {b} s) = ground (arith, least_lower n a b s)
least_lower _ _ _ (delete {n} {x} {a} {b} s) =
    omega (arith, least-delete x a b, least_lower n a b s)
least_lower _ _ _ (insert {n} {y} {a} {b} s) =
    omega (arith, least-insert y a b, least_lower n a b s)

abbrev pub reverse : List ℕ → List ℕ
reverse [] = []
reverse (x ∷ a) = reverse a ++ x ∷ []

-- Two scripts one after the other.
append_scripts :
    (n k : ℕ) (a b c d : List ℕ) → Script n a b → Script k c d → Script (n + k) (a ++ c) (b ++ d)
append_scripts _ k _ _ c d done t = recount (omega arith) t
append_scripts _ k _ _ c d (keep {n} {x} {a} {b} s) t = keep (append_scripts n k a b c d s t)
append_scripts _ k _ _ c d (substitute {n} {x} {y} {a} {b} s) t =
    recount (omega arith) (substitute (append_scripts n k a b c d s t))
append_scripts _ k _ _ c d (delete {n} {x} {a} {b} s) t =
    recount (omega arith) (delete (append_scripts n k a b c d s t))
append_scripts _ k _ _ c d (insert {n} {y} {a} {b} s) t =
    recount (omega arith) (insert (append_scripts n k a b c d s t))

-- A script serves for the lists back to front.
pub Script-reverse : (n : ℕ) (a b : List ℕ) → Script n a b → Script n (reverse a) (reverse b)
Script-reverse _ _ _ done = done
Script-reverse _ _ _ (keep {n} {x} {a} {b} s) = recount (omega arith) (
    append_scripts n 0 (reverse a) (reverse b) (x ∷ []) (x ∷ []) (Script-reverse n a b s)
      (keep done))
Script-reverse _ _ _ (substitute {n} {x} {y} {a} {b} s) = recount (omega arith) (
    append_scripts n 1 (reverse a) (reverse b) (x ∷ []) (y ∷ []) (Script-reverse n a b s)
      (substitute done))
Script-reverse _ _ _ (delete {n} {x} {a} {b} s) = recount (omega arith) (
    subst (Script (n + 1) (reverse a ++ x ∷ [])) (append-nil (reverse b)) (
      append_scripts n 1 (reverse a) (reverse b) (x ∷ []) [] (Script-reverse n a b s)
        (delete done)))
Script-reverse _ _ _ (insert {n} {y} {a} {b} s) = recount (omega arith) (
    subst (λ c. Script (n + 1) c (reverse b ++ y ∷ [])) (append-nil (reverse a))
      (append_scripts n 1 (reverse a) (reverse b) [] (y ∷ []) (Script-reverse n a b s)
        (insert done)))

reverse-append : (a b : List ℕ) → reverse (a ++ b) ≡ reverse b ++ reverse a
reverse-append [] b = sym (append-nil (reverse b))
reverse-append (x ∷ a) b =
    ap (λ c. c ++ x ∷ []) (reverse-append a b) ∙ append_assoc (reverse b) (reverse a) (x ∷ [])

pub reverse-reverse : (a : List ℕ) → reverse (reverse a) ≡ a
reverse-reverse [] = refl
reverse-reverse (x ∷ a) = reverse-append (reverse a) (x ∷ []) ∙ ap (λ c. x ∷ c) (reverse-reverse a)
