-- ===== src/World.antt =====
-- What the loaders ask of the file system and of libraries: reading and resolving paths, the
-- grammars of JSON and YAML, and the hash of a record. They are parameters.
use claim_ci.Prelude.{Bool, true, false, Option, String}
use claim_ci.Floats.{Floats}
use claim_ci.Value.{Value, Fields, mapping}
use claim_ci.Models.{Result, ok, err, unreadable, malformed, wrong_shape, uncaught, ◌>>=◌, or_raise}
use claim_ci.Parsing.{Raw}
use claim_ci.Parsing.Graph.{Children, Node, validate_yaml_graph}

-- A YAML document as PyYAML's loader returns it: its containers with their identities, and the
-- value that they make up.
pub record Document : Type 0 where
  pub children : Children
  pub root : Node
  pub value : Value

-- How `yaml.load` ends: it returns, it raises one of the exceptions that the loaders catch, or it
-- raises another, as a tag's constructor may.
pub data Reading : Type 0 where
  loaded : Document → Reading
  refused : Reading
  escaped : Reading

abbrev pub is_escaped : Reading → Bool
is_escaped escaped = true
is_escaped _ = false

abbrev pub as_document : Reading → Result Document
as_document (loaded d) = ok d
as_document refused = err malformed
as_document escaped = err uncaught

pub record World : Type 0 where
  pub floats : Floats
  -- `path.read_text(encoding="utf-8")`; `none` where it raises
  pub read_text : String → Option String
  -- `path.exists()`; `none` where it raises
  pub exists : String → Option Bool
  -- `path.resolve()`; `none` where it raises
  pub resolve : String → Option String
  -- the JSON grammar; `none` is `JSONDecodeError`
  pub read_json : String → Option Raw
  -- `yaml.load` with the loader that rejects duplicate keys
  pub read_yaml : String → Reading
  -- the SHA-256 of a record's canonical JSON; `none` where it has none
  pub hash_sample : Value → Option String

unfoldable pub load_unique_yaml : World → String → Result Value
load_unique_yaml w text = do
  parsed ← as_document (w.read_yaml text)
  completed ← validate_yaml_graph parsed.children parsed.root
  ok parsed.value

abbrev pub as_mapping : Value → Result Fields
as_mapping (mapping f) = ok f
as_mapping _ = err wrong_shape

unfoldable pub load_config : World → String → Result Fields
unfolding load_unique_yaml
load_config w path = do
  text ← or_raise (w.read_text path) unreadable
  parsed ← load_unique_yaml w text
  as_mapping parsed
