-- ===== src/Naming.antt =====
-- pkg/apiserver/workflow/naming/naming.go, and the text functions of pkg/apiserver/utils that it
-- and the job builder call: ToRFC1123Name (random.go) and NormalizeLowerStrip (strings.go).
-- What Go's unicode package decides is the parameter `Unicode`. A text is a list of code points;
-- where the code counts or cuts bytes, the text is ASCII.
pub mod Collapse
pub mod Label
pub mod Tests
use kube_min_cli.Base.{
  ℕ, zero, suc, ◌+◌, ◌<◌, ◌≡◌, Bool, true, false, not, ◌&&◌, ◌||◌, List, [], ◌∷◌, ◌++◌, map, Text,
  text, is_nil, length, take, ltb, leb, ◌==◌, if◌then◌else◌,
}

pub record Unicode : Type 0 where
  -- `unicode.ToLower` beyond ASCII, and `unicode.IsSpace`.
  pub lower : ℕ → ℕ
  pub is_space : ℕ → Bool

abbrev pub dash : ℕ
dash = 45

-- `[a-z0-9-]`
abbrev pub is_name_char : ℕ → Bool
is_name_char c = (leb 97 c && leb c 122) || (leb 48 c && leb c 57) || (c == dash)

-- The pass of `rfc1123Pattern.ReplaceAllString(s, "-")`: each longest run of other characters
-- becomes one dash. `inside` says that the character before was in such a run.
unfoldable pub replace_runs : Bool → Text → Text
replace_runs inside [] = []
replace_runs inside (c ∷ cs) =
    let keep = is_name_char c in
    let rest = replace_runs (not keep) cs in
    if keep then c ∷ rest else if inside then rest else dash ∷ rest

-- `strings.ReplaceAll(s, "--", "-")`; `held` says that a dash is waiting for its neighbour.
unfoldable pub replace_pairs : Bool → Text → Text
replace_pairs held [] = if held then dash ∷ [] else []
replace_pairs held (c ∷ cs) =
    let rest = replace_pairs ((c == dash) && not held) cs in
    if held
    then (if c == dash then dash ∷ rest else dash ∷ c ∷ rest)
    else if c == dash
    then rest
    else c ∷ rest

-- `strings.Contains(s, "--")`, with the same `held`.
unfoldable pub has_pair : Bool → Text → Bool
has_pair held [] = false
has_pair held (c ∷ cs) = (held && (c == dash)) || has_pair (c == dash) cs

-- The loop `for strings.Contains(s, "--")`, with fuel.
unfoldable pub collapse : ℕ → Text → Text
collapse zero s = s
collapse (suc fuel) s = elim (has_pair false s) [
  | true ↦ collapse fuel (replace_pairs false s)
  | false ↦ s
]

-- `strings.Trim(s, "-")`
unfoldable pub trim_left : Text → Text
trim_left [] = []
trim_left (c ∷ cs) = if c == dash then trim_left cs else c ∷ cs

unfoldable pub trim_right : Text → Text
trim_right [] = []
trim_right (c ∷ cs) =
    let rest = trim_right cs in if is_nil rest && (c == dash) then [] else c ∷ rest

abbrev pub trim_dashes : Text → Text
trim_dashes s = trim_right (trim_left s)

abbrev pub max_resource_name_length : ℕ
max_resource_name_length = 63

-- `if len(s) > 63 { s = strings.Trim(s[:63], "-") }`
unfoldable pub truncate : Text → Text
truncate s =
    if ltb max_resource_name_length (length s)
    then trim_dashes (take max_resource_name_length s)
    else s

-- `parts = append(parts, s)` and `strings.Join(parts, "-")`, for the parts that are not empty.
abbrev pub join : Text → Text → Text
join [] t = t
join (c ∷ cs) [] = c ∷ cs
join (c ∷ cs) (d ∷ ds) = (c ∷ cs) ++ (dash ∷ d ∷ ds)

module _ (u : Unicode) where
  -- `strings.ToLower`
  unfoldable pub to_lower : Text → Text
  to_lower = map λ c. if ltb c 128 then (if leb 65 c && leb c 90 then c + 32 else c) else u.lower c

  -- The length of the text is fuel enough: `collapse-flat` below this module.
  unfoldable pub to_rfc1123_name : Text → Text
  unfolding to_lower
  to_rfc1123_name s =
      let r = replace_runs false (to_lower s) in
      let t = trim_dashes (collapse (length r) r) in if is_nil t then text "port" else t

  abbrev strip : Text → Text
  strip [] = []
  strip (c ∷ cs) =
      let rest = strip cs in
      if (c == 32) || (c == 10) || (c == 13) || (c == 9) then rest else c ∷ rest

  unfoldable pub normalize_lower_strip : Text → Text
  unfolding to_lower
  normalize_lower_strip s = strip (to_lower s)

  abbrev pub trim_space_left : Text → Text
  trim_space_left [] = []
  trim_space_left (c ∷ cs) = let rest = trim_space_left cs in if u.is_space c then rest else c ∷ cs

  abbrev pub trim_space_right : Text → Text
  trim_space_right [] = []
  trim_space_right (c ∷ cs) =
      let rest = trim_space_right cs in if is_nil rest && u.is_space c then [] else c ∷ rest

  -- `strings.TrimSpace`
  unfoldable pub trim_space : Text → Text
  trim_space s = trim_space_right (trim_space_left s)

  unfoldable pub normalize_segment : Text → Text → Text
  unfolding normalize_lower_strip
  normalize_segment value fallback =
      let s = normalize_lower_strip value in if is_nil s then fallback else s

  unfoldable pub build_resource_name : Text → Text → Text → Text
  build_resource_name prefix component app_id =
      let c = normalize_segment component (text "component") in
      let a = normalize_segment app_id (text "app") in
      let result = truncate (to_rfc1123_name (join prefix (join c a))) in
      if is_nil result then (if is_nil prefix then text "component" else prefix) else result

  unfoldable pub web_service_name : Text → Text → Text
  unfolding build_resource_name
  web_service_name = build_resource_name (text "deploy")

  unfoldable pub service_name : Text → Text → Text
  unfolding build_resource_name
  service_name = build_resource_name (text "svc")

  unfoldable pub store_server_name : Text → Text → Text
  unfolding build_resource_name
  store_server_name = build_resource_name (text "store")

  unfoldable pub ingress_name : Text → Text → Text
  unfolding build_resource_name
  ingress_name = build_resource_name (text "ing")

  unfoldable pub pvc_name : Text → Text → Text
  unfolding normalize_lower_strip
  pvc_name trait app_id =
      let n = normalize_lower_strip trait in
      let name = if is_nil n then text "data" else n in
      let suffix = normalize_lower_strip app_id in
      if is_nil suffix then text "pvc-" ++ name else text "pvc-" ++ name ++ text "-" ++ suffix
