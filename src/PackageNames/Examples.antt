-- ===== src/PackageNames/Examples.antt =====
-- Package names and module paths on concrete texts.
use dep_scan.Prelude.{[], ◌∷◌, ◌≡◌, ◌≢◌, refl, true, some, eq_iff, false}
use dep_scan.Prelude.Results.{ok, err}
use dep_scan.Prelude.Text.{contains_char}
use dep_scan.Transitive.Graph.{npm}
use dep_scan.PackageNames.{
  check_packages, validate_go_module_path, empty_segment, validate_package_names,
  validate_package_name, String,
}
use dep_scan.PackageNames.Encoding.{encode_module_path, encode_module_path-distinct}

encode_test : encode_module_path "github.com/Azure/go-autorest" ≡ "github.com/!azure/go-autorest"
unfolding encode_module_path
encode_test = refl

-- An exclamation mark is accepted, and two accepted paths have the same encoding.
mark_accepted : validate_go_module_path "github.com/!azure/x" ≡ ok tt
unfolding validate_go_module_path
mark_accepted = refl

same_encoding : encode_module_path "github.com/!azure/x" ≡ encode_module_path "github.com/Azure/x"
unfolding encode_module_path
same_encoding = refl

double_slash : validate_go_module_path "github.com//foo" ≡ err empty_segment
unfolding validate_go_module_path
double_slash = refl

flag_refused : check_packages ("lodash" ∷ "--global" ∷ []) npm ≡ some 2
unfolding check_packages validate_package_names validate_package_name
flag_refused = refl

capitals_differ : ◌≢◌ {A = String} "github.com/Azure/x" "github.com/azure/x"
capitals_differ h =
    let same : false ≡ true = (eq_iff "github.com/Azure/x" "github.com/azure/x").1 h in cc

encode_module_path-distinct_example :
    encode_module_path "github.com/Azure/x" ≢ encode_module_path "github.com/azure/x"
unfolding contains_char
encode_module_path-distinct_example =
    encode_module_path-distinct "github.com/Azure/x" "github.com/azure/x" refl refl capitals_differ
