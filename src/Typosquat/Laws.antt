-- ===== src/Typosquat/Laws.antt =====
-- src/typosquat.rs: the rows of the matrix, and what `levenshtein` returns.
use dep_scan.Prelude.{
  ℕ, suc, ◌≤◌, List, [], ◌∷◌, ◌++◌, ◌≡◌, refl, sym, arith, length, ap, subst, String, ◌∙◌,
  append_assoc, append-nil, length-append,
}
use dep_scan.Prelude.Text.{codes}
use dep_scan.Typosquat.{
  row_loop, next_row, rows_loop, counting, max_name_chars, entry_at, distance, levenshtein,
}
use dep_scan.Typosquat.Script.{
  Script, least, least-Script, least_lower, reverse, Script-reverse, reverse-reverse,
}

-- The entries of a row from a column on, for the characters read so far, last first: of the first
-- name `seen`, of the second `passed`, with `b` still ahead.
abbrev entries : List ℕ → List ℕ → List ℕ → List ℕ
entries seen passed [] = []
entries seen passed (y ∷ b) = least seen (y ∷ passed) ∷ entries seen (y ∷ passed) b

abbrev row : List ℕ → List ℕ → List ℕ
row seen b = least seen [] ∷ entries seen [] b

row_loop-entries :
    (x : ℕ) (seen passed b : List ℕ)
    → row_loop x (least (x ∷ seen) passed) (least seen passed) (entries seen passed b) b
      ≡ entries (x ∷ seen) passed b
unfolding row_loop least
row_loop-entries x seen passed [] = refl
row_loop-entries x seen passed (y ∷ b) =
    ap (λ r. least (x ∷ seen) (y ∷ passed) ∷ r) (row_loop-entries x seen (y ∷ passed) b)

least-length : (seen : List ℕ) → least seen [] ≡ length seen
unfolding least
least-length [] = refl
least-length (x ∷ seen) = refl

next_row-row :
    (x : ℕ) (seen b : List ℕ) → next_row (suc (length seen)) x (row seen b) b ≡ row (x ∷ seen) b
unfolding next_row least
next_row-row x seen b = ap (λ r. suc (length seen) ∷ r) (row_loop-entries x seen [] b)

counting-entries :
    (n : ℕ) (passed b : List ℕ)
    → length passed ≡ n
    → counting n (length b) ≡ n ∷ entries [] passed b
unfolding counting least
counting-entries n passed [] h = refl
counting-entries n passed (y ∷ b) h =
    ap (λ r. n ∷ r)
      (counting-entries (suc n) (y ∷ passed) b (ap suc h)
        ∙ ap (λ m. suc m ∷ entries [] (y ∷ passed) b) (sym h))

rows_loop-row :
    (a seen b : List ℕ) → rows_loop (suc (length seen)) a (row seen b) b ≡ row (reverse a ++ seen) b
unfolding rows_loop
rows_loop-row [] seen b = refl
rows_loop-row (x ∷ a) seen b =
    ap (λ r. rows_loop (suc (suc (length seen))) a r b) (next_row-row x seen b)
    ∙ rows_loop-row a (x ∷ seen) b
    ∙ ap (λ c. row c b) (sym (append_assoc (reverse a) (x ∷ []) seen))

entries-last :
    (seen passed b : List ℕ)
    → entry_at (least seen passed ∷ entries seen passed b) (length b)
      ≡ least seen (reverse b ++ passed)
entries-last seen passed [] = refl
entries-last seen passed (y ∷ b) =
    entries-last seen (y ∷ passed) b
    ∙ ap (least seen) (sym (append_assoc (reverse b) (y ∷ []) passed))

length-reverse : (a : List ℕ) → length (reverse a) ≡ length a
length-reverse [] = refl
length-reverse (x ∷ a) = omega (arith, length-append (reverse a) (x ∷ []), length-reverse a)

distance-rows :
    (a b : List ℕ)
    → entry_at (rows_loop 1 a (counting 0 (length b)) b) (length b) ≡ least (reverse a) (reverse b)
unfolding least
distance-rows a b =
    ap (λ r. entry_at (rows_loop 1 a r b) (length b)) (counting-entries 0 [] b refl)
    ∙ ap (λ r. entry_at r (length b)) (rows_loop-row a [] b)
    ∙ entries-last (reverse a ++ []) [] b
    ∙ ap (λ c. least c (reverse b ++ [])) (append-nil (reverse a))
    ∙ ap (least (reverse a)) (append-nil (reverse b))

distance-least :
    (a b : List ℕ)
    → length a ≤ max_name_chars
    → length b ≤ max_name_chars
    → distance a b ≡ least (reverse a) (reverse b)
unfolding distance least
distance-least [] b short_a short_b = ground (arith, length-reverse b)
distance-least (x ∷ a) [] short_a short_b =
    ground (arith, length-reverse (x ∷ a), least-length (reverse (x ∷ a)))
distance-least (x ∷ a) (y ∷ b) short_a short_b = ground (arith, distance-rows (x ∷ a) (y ∷ b))

-- For two names of at most 256 characters, `levenshtein` is the least number of insertions, deletions
-- and substitutions of one character that turn one into the other: some edit takes that many, and
-- none takes fewer.
pub levenshtein-Script :
    (a b : String)
    → length (codes a) ≤ max_name_chars
    → length (codes b) ≤ max_name_chars
    → Script (levenshtein a b) (codes a) (codes b)
      × ((n : ℕ) → Script n (codes a) (codes b) → levenshtein a b ≤ n)
unfolding levenshtein
levenshtein-Script a b short_a short_b =
    let front = codes a in
    let back = codes b in
    let e : distance front back ≡ least (reverse front) (reverse back) =
      distance-least front back short_a short_b in
    let s = Script-reverse _ _ _ (least-Script (reverse front) (reverse back)) in
    (
      subst (λ n. Script n front back) (sym e)
          (subst (λ c. Script (least (reverse front) (reverse back)) c back) (reverse-reverse front)
            (subst (Script (least (reverse front) (reverse back)) (reverse (reverse front)))
              (reverse-reverse back) s)),
      λ n t.
          let bound =
            least_lower n (reverse front) (reverse back) (Script-reverse n front back t) in
          rw e bound,
    )
