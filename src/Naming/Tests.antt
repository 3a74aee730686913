-- ===== src/Naming/Tests.antt =====
-- Names of resources, with the ASCII part of the case mapping alone.
use kube_min_cli.Base.{◌≡◌, refl, text, ◌==◌}
use kube_min_cli.Naming.{
  Unicode, has_pair, collapse, build_resource_name, normalize_segment, to_rfc1123_name, to_lower,
  normalize_lower_strip, trim_space, truncate, replace_runs, replace_pairs, trim_left, trim_right,
}
use kube_min_cli.Naming.Label.{IsDnsLabel, build_resource_name-IsDnsLabel}

abbrev ascii : Unicode
ascii = record { lower = λ c. c; is_space = λ c. c == 32 }

build_resource_name-IsDnsLabel_example :
    IsDnsLabel (build_resource_name ascii (text "deploy") (text "My_App") (text "42"))
build_resource_name-IsDnsLabel_example =
    build_resource_name-IsDnsLabel ascii (text "deploy") (text "My_App") (text "42")

collapsed : collapse 9 (text "a---b--c!") ≡ text "a-b-c!"
unfolding collapse has_pair replace_pairs
collapsed = refl

named :
    build_resource_name ascii (text "deploy") (text "My_App") (text "42") ≡ text "deploy-my-app-42"
unfolding build_resource_name normalize_segment to_rfc1123_name to_lower normalize_lower_strip
    trim_space truncate replace_runs replace_pairs trim_left trim_right collapse has_pair
named = refl
