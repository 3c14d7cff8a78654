-- ===== src/Typosquat/Closest/Laws.antt =====
-- src/typosquat.rs: which popular name `find_closest_match` gives.
use dep_scan.Prelude.{
  List, [], ◌∷◌, ◌++◌, Option, none, some, String, true, false, ◌≡◌, refl, sym, arith, In, All,
  All-append, All-In, All-of_In, In-append_left, In-append_last, append_assoc, append-nil,
  Bool-cases, inl, inr, subst,
}
use dep_scan.Typosquat.Closest.{Floats, name_distance, next_best, closest_loop, find_closest_match}

-- What IEEE 754 says of the order, for values that are numbers.
pub record FloatOrder {F : Type 0} (floats : Floats F) : Type 0 where
  pub lt_irreflexive : (a : F) → floats.lt a a ≡ false
  pub lt_trans : (a b c : F) → floats.lt a b ≡ true → floats.lt b c ≡ true → floats.lt a c ≡ true
  pub lt_le_trans : (a b c : F) → floats.lt a b ≡ true → floats.le b c ≡ true → floats.le a c ≡ true

module _ {F : Type 0} (floats : Floats F) (to_lowercase : String → String) where
  abbrev dist : String → String → F
  dist = name_distance floats to_lowercase

  -- No popular name is within the threshold, or the given one is, at the given distance, and none is
  -- closer.
  abbrev pub IsClosest : String → F → List String → Option (String × F) → Type 0
  IsClosest name threshold packages none =
      All (λ q. floats.le (dist name q) threshold ≡ false) packages
  IsClosest name threshold packages (some (p, d)) =
      In p packages
      × (d ≡ dist name p)
      × (floats.le d threshold ≡ true)
      × All (λ q. floats.lt (dist name q) d ≡ false) packages

  module _ (order : FloatOrder floats) (name : String) (threshold : F) where
    keeps_best :
        (seen : List String) (pkg : String) (best : Option (String × F))
        → IsClosest name threshold seen best
        → floats.le (dist name pkg) threshold ≡ false
        → IsClosest name threshold (seen ++ pkg ∷ []) best
    keeps_best seen pkg none h far = All-append _ seen (pkg ∷ []) h (far, tt)
    keeps_best seen pkg (some (p, d)) (m, e, near, least) far = (
      In-append_left p seen (pkg ∷ []) m,
      e,
      near,
      All-append _ seen (pkg ∷ []) least (
        (elim (Bool-cases (floats.lt (dist name pkg) d)) [
          | inr no_closer ↦ no_closer
          | inl closer ↦
              absurd (ground (arith, order.lt_le_trans (dist name pkg) d threshold closer near))
        ]),
        tt,
      ),
    )

    first_best :
        (seen : List String) (pkg : String)
        → IsClosest name threshold seen none
        → floats.le (dist name pkg) threshold ≡ true
        → IsClosest name threshold (seen ++ pkg ∷ []) (some (pkg, dist name pkg))
    first_best seen pkg h near = (
      In-append_last pkg seen,
      refl,
      near,
      All-append _ seen (pkg ∷ [])
          (All-of_In _ seen (λ q m. elim (Bool-cases (floats.lt (dist name q) (dist name pkg))) [
            | inr no_closer ↦ no_closer
            | inl closer ↦
                let far = All-In _ seen q h m in
                absurd (
                  ground (
                    arith,
                    far,
                    order.lt_le_trans (dist name q) (dist name pkg) threshold closer near,
                  ))
          ]))
          (order.lt_irreflexive (dist name pkg), tt),
    )

    closer_best :
        (seen : List String) (pkg p : String) (d : F)
        → IsClosest name threshold seen (some (p, d))
        → floats.le (dist name pkg) threshold ≡ true
        → floats.lt (dist name pkg) d ≡ true
        → IsClosest name threshold (seen ++ pkg ∷ []) (some (pkg, dist name pkg))
    closer_best seen pkg p d (m, e, within, least) near closer = (
      In-append_last pkg seen,
      refl,
      near,
      All-append _ seen (pkg ∷ [])
          (All-of_In _ seen (λ q k. elim (Bool-cases (floats.lt (dist name q) (dist name pkg))) [
            | inr no_closer ↦ no_closer
            | inl before ↦
                let far = All-In _ seen q least k in
                absurd (
                  ground (arith, far, order.lt_trans (dist name q) (dist name pkg) d before closer))
          ]))
          (order.lt_irreflexive (dist name pkg), tt),
    )

    not_closer :
        (seen : List String) (pkg p : String) (d : F)
        → IsClosest name threshold seen (some (p, d))
        → floats.lt (dist name pkg) d ≡ false
        → IsClosest name threshold (seen ++ pkg ∷ []) (some (p, d))
    not_closer seen pkg p d (m, e, within, least) no_closer = (
      In-append_left p seen (pkg ∷ []) m,
      e,
      within,
      All-append _ seen (pkg ∷ []) least (no_closer, tt),
    )

    next_best-IsClosest :
        (seen : List String) (pkg : String) (best : Option (String × F))
        → IsClosest name threshold seen best
        → IsClosest name threshold
            (seen ++ pkg ∷ [])
            (next_best floats to_lowercase name threshold pkg best)
    unfolding next_best
    next_best-IsClosest seen pkg none h = elim (Bool-cases (floats.le (dist name pkg) threshold)) [
      | inl near ↦ rw (near, next_best) (first_best seen pkg h near)
      | inr far ↦ rw (far, next_best) (keeps_best seen pkg none h far)
    ]
    next_best-IsClosest seen pkg (some (p, d)) h =
        elim (Bool-cases (floats.le (dist name pkg) threshold)) [
          | inr far ↦ rw (far, next_best) (keeps_best seen pkg (some (p, d)) h far)
          | inl near ↦ elim (Bool-cases (floats.lt (dist name pkg) d)) [
            | inl closer ↦ rw (near, closer, next_best) (closer_best seen pkg p d h near closer)
            | inr no_closer ↦ rw (near, no_closer, next_best) (not_closer seen pkg p d h no_closer)
          ]
        ]

    closest_loop-IsClosest :
        (seen packages : List String) (best : Option (String × F))
        → IsClosest name threshold seen best
        → IsClosest name threshold
            (seen ++ packages)
            (closest_loop floats to_lowercase name threshold best packages)
    unfolding closest_loop
    closest_loop-IsClosest seen [] best h =
        subst (λ ps. IsClosest name threshold ps best) (sym (append-nil seen)) h
    closest_loop-IsClosest seen (pkg ∷ packages) best h =
        let next = next_best floats to_lowercase name threshold pkg best in
        subst
          (λ ps.
            IsClosest name threshold ps
              (closest_loop floats to_lowercase name threshold next packages))
          (append_assoc seen (pkg ∷ []) packages)
          (closest_loop-IsClosest (seen ++ pkg ∷ []) packages next
            (next_best-IsClosest seen pkg best h))

    -- For distances ordered as IEEE 754 says of numbers, the result is none exactly where no popular
    -- name is within the threshold of the name, both stripped of their affixes; else it is a popular
    -- name within the threshold with its distance, and no popular name is closer.
    pub find_closest_match-IsClosest :
        (packages : List String)
        → IsClosest name threshold packages
            (find_closest_match floats to_lowercase name packages threshold)
    unfolding find_closest_match
    find_closest_match-IsClosest packages = closest_loop-IsClosest [] packages none tt
