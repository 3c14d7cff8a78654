-- ===== src/Sigstore/Chain/Laws.antt =====
-- src/sigstore_verify.rs: what a leaf certificate that passes the chain walk rests on.
use dep_scan.Prelude.{
  List, [], ◌∷◌, Option, none, some, String, Bool, true, false, ◌≡◌, refl, arith, In, inl, inr, ap,
  ◌∙◌, if◌then◌else◌, ◌⊎◌, Bool-cases, eq_iff, sym,
}
use dep_scan.Prelude.Results.{ok, Bytes, Result-cases}
use dep_scan.Sigstore.Chain.{
  TrustAnchor, ChainError, X509, leaf_has_code_signing_eku, has_subject, find_anchors_by_subject,
  roots_only, verify_signed_by, try_roots, verify_intermediate_to_root, try_parents,
  verify_fulcio_chain_against,
}

In-kept :
    {A : Type 0} (keep : Bool) (a b : A) (rest : List A)
    → In a (if keep then b ∷ rest else rest)
    → ((keep ≡ true) × (a ≡ b)) ⊎ In a rest
In-kept true a b rest (inl same) = inl (refl, same)
In-kept true a b rest (inr m) = inr m
In-kept false a b rest m = inr m

roots_only-In :
    (store : List TrustAnchor) (a : TrustAnchor)
    → In a (roots_only store)
    → In a store × (a.is_root ≡ true)
roots_only-In [] a m = absurd m
roots_only-In (b ∷ store) a m = elim (In-kept b.is_root a b (roots_only store) m) [
  | inl (root, same) ↦ (inl same, ap (λ (c : TrustAnchor). c.is_root) same ∙ root)
  | inr rest ↦ let (k, s) = roots_only-In store a rest in (inr k, s)
]

module _ {Certificate : Type 0} (x509 : X509 Certificate) where
  -- An anchor of the store whose certificate names the child's issuer and verifies its signature.
  pub record IssuedBy (trust_store : List TrustAnchor) (child : Certificate) : Type 0 where
    pub anchor : TrustAnchor
    pub certificate : Certificate
    pub trusted : In anchor trust_store
    pub parsed : x509.from_der anchor.der ≡ ok certificate
    pub issuer : x509.subject certificate ≡ x509.issuer child
    pub signed : x509.verify_signature child certificate ≡ ok tt

  -- A chain of at most one intermediate that ends at a root of the store.
  pub record Chained (trust_store : List TrustAnchor) (leaf_der : Bytes) : Type 0 where
    pub leaf : Certificate
    pub parsed : x509.from_der leaf_der ≡ ok leaf
    pub code_signing : leaf_has_code_signing_eku x509 leaf ≡ true
    pub parent : IssuedBy trust_store leaf
    pub ends :
        (parent.anchor.is_root ≡ true)
        ⊎ ((root : IssuedBy trust_store parent.certificate) × (root.anchor.is_root ≡ true))

  find-has_subject :
      (store : List TrustAnchor) (dn : String) (a : TrustAnchor)
      → In a (find_anchors_by_subject x509 store dn)
      → In a store × (has_subject x509 dn a ≡ true)
  unfolding find_anchors_by_subject
  find-has_subject [] dn a m = absurd m
  find-has_subject (b ∷ store) dn a m =
      elim (In-kept (has_subject x509 dn b) a b (find_anchors_by_subject x509 store dn) m) [
        | inl (here, same) ↦ (inl same, ap (has_subject x509 dn) same ∙ here)
        | inr rest ↦ let (k, s) = find-has_subject store dn a rest in (inr k, s)
      ]

  verify_signed_by-ok :
      (child : Certificate) (parent : TrustAnchor) (label : String)
      → verify_signed_by x509 child parent label ≡ ok tt
      → (c : Certificate) × (x509.from_der parent.der ≡ ok c)
        × (x509.verify_signature child c ≡ ok tt)
  unfolding verify_signed_by
  verify_signed_by-ok child parent label h = elim (Result-cases (x509.from_der parent.der)) [
    | inr (e, malformed) ↦ absurd (ground arith)
    | inl (c, parsed) ↦ elim (Result-cases (x509.verify_signature child c)) [
      | inl (tt, signed) ↦ (c, parsed, signed)
      | inr (e, refused) ↦ absurd (ground arith)
    ]
  ]

  try_roots-ok :
      (child : Certificate) (dn : String) (last : Option ChainError) (roots : List TrustAnchor)
      → try_roots x509 child dn last roots ≡ ok tt
      → (root : TrustAnchor) × In root roots
        × (verify_signed_by x509 child root "intermediate-by-root" ≡ ok tt)
  unfolding try_roots
  try_roots-ok child dn last [] h = absurd (ground arith)
  try_roots-ok child dn last (root ∷ roots) h =
      elim (Result-cases (verify_signed_by x509 child root "intermediate-by-root")) [
        | inl (u, signed) ↦ (root, inl refl, signed)
        | inr (e, refused) ↦
            let (found, m, signed) = try_roots-ok child dn (some e) roots (ground arith) in
            (found, inr m, signed)
      ]

  try_parents-ok :
      (leaf : Certificate) (dn : String) (store : List TrustAnchor) (last : Option ChainError)
      (parents : List TrustAnchor)
      → try_parents x509 leaf dn store last parents ≡ ok tt
      → (parent : TrustAnchor) × In parent parents
        × (verify_signed_by x509 leaf parent "leaf-by-parent" ≡ ok tt)
        × ((parent.is_root ≡ true) ⊎ (verify_intermediate_to_root x509 parent store ≡ ok tt))
  unfolding try_parents
  try_parents-ok leaf dn store last [] h = absurd (ground arith)
  try_parents-ok leaf dn store last (parent ∷ parents) h =
      elim (Result-cases (verify_signed_by x509 leaf parent "leaf-by-parent")) [
        | inl (u, signed) ↦ elim (Bool-cases parent.is_root) [
          | inl root ↦ (parent, inl refl, signed, inl root)
          | inr intermediate ↦ (parent, inl refl, signed, inr (ground arith))
        ]
        | inr (e, refused) ↦
            let (found, m, signed, ends) =
              try_parents-ok leaf dn store (some e) parents (ground arith) in
            (found, inr m, signed, ends)
      ]

  issued_by :
      (store : List TrustAnchor) (child : Certificate) (a : TrustAnchor) (label : String)
      → In a (find_anchors_by_subject x509 store (x509.issuer child))
      → verify_signed_by x509 child a label ≡ ok tt
      → (i : IssuedBy store child) × (i.anchor ≡ a)
  unfolding has_subject
  issued_by store child a label m h =
      let (c, parsed, signed) = verify_signed_by-ok child a label h in
      let (trusted, named) = find-has_subject store (x509.issuer child) a m in
      (
        record {
          anchor = a;
          certificate = c;
          trusted = trusted;
          parsed = parsed;
          issuer = ground (arith, eq_iff (x509.subject c) (x509.issuer child));
          signed = signed;
        },
        refl,
      )

  intermediate-root :
      (store : List TrustAnchor) (parent : TrustAnchor) (c : Certificate)
      → verify_intermediate_to_root x509 parent store ≡ ok tt
      → x509.from_der parent.der ≡ ok c
      → (root : IssuedBy store c) × (root.anchor.is_root ≡ true)
  unfolding verify_intermediate_to_root
  intermediate-root store parent c h parsed =
      let candidates = roots_only (find_anchors_by_subject x509 store (x509.issuer c)) in
      let (root, m, signed) = try_roots-ok c (x509.issuer c) none candidates (ground arith) in
      let (found, is_root) =
        roots_only-In (find_anchors_by_subject x509 store (x509.issuer c)) root m in
      let (i, same) = issued_by store c root "intermediate-by-root" found signed in
      (i, ap (λ (a : TrustAnchor). a.is_root) same ∙ is_root)

  -- A leaf certificate that is accepted parses, may sign code, and is signed by an anchor of the
  -- store that bears its issuer's name, where that anchor is a root, or is signed by a root of the
  -- store that bears its own issuer's name.
  pub verify_fulcio_chain_against-Chained :
      (leaf_der : Bytes) (store : List TrustAnchor)
      → verify_fulcio_chain_against x509 leaf_der store ≡ ok tt
      → Chained store leaf_der
  unfolding verify_fulcio_chain_against
  verify_fulcio_chain_against-Chained leaf_der store h =
      elim (Result-cases (x509.from_der leaf_der)) [
        | inr (e, malformed) ↦ absurd (ground arith)
        | inl (leaf, parsed) ↦ elim (Bool-cases (leaf_has_code_signing_eku x509 leaf)) [
          | inr other_use ↦ absurd (ground arith)
          | inl code_signing ↦
              let dn = x509.issuer leaf in
              let candidates = find_anchors_by_subject x509 store dn in
              let (parent, m, signed, ends) =
                try_parents-ok leaf dn store none candidates (ground arith) in
              let (i, same) = issued_by store leaf parent "leaf-by-parent" m signed in
              let certificate : x509.from_der parent.der ≡ ok i.certificate =
                ap (λ (a : TrustAnchor). x509.from_der a.der) (sym same) ∙ i.parsed in
              record {
                leaf = leaf;
                parsed = parsed;
                code_signing = code_signing;
                parent = i;
                ends = elim ends [
                  | inl is_root ↦ inl (ap (λ (a : TrustAnchor). a.is_root) same ∙ is_root)
                  | inr further ↦
                      inr (intermediate-root store parent i.certificate further certificate)
                ];
              }
        ]
      ]
