-- ===== src/Tools.antt =====
-- tools/tool.go and tools/registry.go: what the engine asks of a tool, and the registry.
use mister_morph.Base.{join, text_lt, String, Bool, Option, List, [], ◌∷◌, map, ◌==◌, if◌then◌else◌}
use mister_morph.Base.Json.{Params, lookup}
use mister_morph.Guard.Types.{NetworkPolicy}

-- What a call of Tool.Execute gives, with the world that it leaves.
pub record ToolRun (W : Type 0) : Type 0 where
  pub observation : String
  pub error : Option String
  pub world : W

pub record Tool (W : Type 0) : Type 0 where
  pub name : String
  pub description : String
  pub parameter_schema : String
  -- Execute, with the network policy that the context carries
  pub execute : Option NetworkPolicy → Params → W → ToolRun W
  -- whether it has a StopAfterSuccess method that says true
  pub stop_after_success : Bool

-- The map of a registry, an entry for each name.
abbrev pub Registry : Type 0 → Type 0
Registry W = List (String × Tool W)

module _ {W : Type 0} where
  -- Get
  unfoldable pub get : Registry W → String → Option (Tool W)
  unfolding lookup
  get r name = lookup name r

  -- Register: r.tools[tool.Name()] = tool
  unfoldable pub register : Tool W → Registry W → Registry W
  register tool [] = (tool.name, tool) ∷ []
  register tool ((n, t) ∷ r) = if n == tool.name then (n, tool) ∷ r else (n, t) ∷ register tool r

  -- The insertion of a tool by its name, for sort.Slice.
  insert_by_name : Tool W → List (Tool W) → List (Tool W)
  insert_by_name t [] = t ∷ []
  insert_by_name t (u ∷ us) = if text_lt t.name u.name then t ∷ u ∷ us else u ∷ insert_by_name t us

  sort_by_name : List (Tool W) → List (Tool W)
  unfolding insert_by_name
  sort_by_name [] = []
  sort_by_name (t ∷ ts) = insert_by_name t (sort_by_name ts)

  -- All
  unfoldable pub all : Registry W → List (Tool W)
  unfolding sort_by_name
  all r = sort_by_name (map (λ e. e.1) r)

  -- ToolNames
  unfoldable pub tool_names : Registry W → String
  unfolding all join
  tool_names r = join ", " (map (λ t. t.name) (all r))
