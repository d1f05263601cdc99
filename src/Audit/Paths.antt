-- ===== src/Audit/Paths.antt =====
-- `_experiment_paths`: the artifacts that a manifest names, confined to an artifact root.
use Prim.Native.Char.{Char, code}
use claim_ci.Prelude.{
  ◌≡◌, refl, Bool, true, not, ◌&&◌, ◌||◌, ◌==◌, any, Option, none, some, List, [], ◌∷◌, String,
  str_eq, strip, if◌then◌else◌,
}
use claim_ci.Value.{Value, str, get}
use claim_ci.Models.{Result, ok, err, bad_path, outside_root, ◌>>=◌, ◌>>◌, require, or_raise}
use claim_ci.World.{World, as_mapping}

-- What the code asks of `pathlib` beyond reading and resolving.
pub record Paths : Type 0 where
  -- `Path(p).is_absolute()`, on the host, as a POSIX and as a Windows path
  pub is_absolute : String → Bool
  pub is_posix_absolute : String → Bool
  pub is_windows_absolute : String → Bool
  -- `directory / p`
  pub join : String → String → String
  -- `p.parent`
  pub parent : String → String
  -- `p.relative_to(root)` does not raise
  pub is_within : String → String → Bool

push : Char → List String → List String
push c [] = (String.◌∷◌ c String.[]) ∷ []
push c (part ∷ parts) = (String.◌∷◌ c part) ∷ parts

-- `p.replace("\\", "/").split("/")`
unfoldable pub portable_parts : String → List String
unfolding push
portable_parts String.[] = "" ∷ []
portable_parts (String.◌∷◌ c s) =
    let rest = portable_parts s in if code c == 47 || code c == 92 then "" ∷ rest else push c rest

abbrev pub is_parent : String → Bool
is_parent part = str_eq part ".."

-- Under an artifact root a path must be relative, and must not go up.
unfoldable pub is_portable : Paths → Option String → String → Bool
unfolding portable_parts
is_portable ps none raw = true
is_portable ps (some root) raw =
    not (any is_parent (portable_parts raw))
    && not (ps.is_posix_absolute raw || ps.is_windows_absolute raw)

unfoldable pub is_inside : Paths → Option String → String → Bool
is_inside ps none resolved = true
is_inside ps (some root) resolved = ps.is_within resolved root

-- `path if path.is_absolute() else manifest_dir / path`
unfoldable pub placed : Paths → String → String → String
placed ps directory raw = if ps.is_absolute raw then raw else ps.join directory raw

unfoldable pub artifact_path : World → Paths → Option String → String → Option Value → Result String
unfolding is_portable is_inside placed
artifact_path w ps root directory (some (str raw)) = do
  require (not (str_eq (strip raw) "")) bad_path
  require (is_portable ps root raw) outside_root
  resolved ← or_raise (w.resolve (placed ps directory raw)) bad_path
  require (is_inside ps root resolved) outside_root
  ok resolved
artifact_path w ps root directory _ = err bad_path

pub record ExperimentPaths : Type 0 where
  pub config : String
  pub results : String
  pub train_dataset : String
  pub eval_dataset : String

unfoldable pub experiment_paths :
    World → Paths → Option String → String → Value → Result ExperimentPaths
experiment_paths w ps root directory v = do
  fields ← as_mapping v
  config ← artifact_path w ps root directory (get "config" fields)
  results ← artifact_path w ps root directory (get "results" fields)
  train ← artifact_path w ps root directory (get "train_dataset" fields)
  eval ← artifact_path w ps root directory (get "eval_dataset" fields)
  ok (record { config = config; results = results; train_dataset = train; eval_dataset = eval })

goes_up : any is_parent (portable_parts "data\\..\\x/y") ≡ true
unfolding portable_parts
goes_up = refl
