-- ===== src/PackageNames/Laws.antt =====
-- src/validation.rs, src/registry/go.rs and src/main.rs: which package names are let through.
use dep_scan.Prelude.{ℕ, ◌<◌, String, false, ◌≡◌, ◌≢◌, In, All}
use dep_scan.Prelude.Text.{codes, has_prefix}
use dep_scan.Prelude.Lines.{split, trim}

-- ASCII, and none of the characters that mean something in a URL.
abbrev pub UrlSafe : ℕ → Type 0
UrlSafe c = (c < 128) × ¬ In c (codes "?#% @\n\r")

-- A path segment that is not empty and names no other directory.
abbrev pub Proper : String → Type 0
Proper s = (s ≢ "") × (s ≢ "..") × (s ≢ ".")

abbrev pub WellFormedPath : String → Type 0
WellFormedPath path = All UrlSafe (codes path) × All Proper (split b'/' path)

-- A package name that is not blank and is no flag.
abbrev pub PackageName : String → Type 0
PackageName s = (trim s ≢ "") × (has_prefix "-" s ≡ false)
