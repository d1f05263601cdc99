-- ===== src/Audit/Caught.antt =====
-- `load_config` and `load_dataset`: where they raise nothing that `audit_research` does not catch.
use claim_ci.Prelude.{
  ◌≡◌, refl, true, false, not, is_empty, is_some, Bool-cases, inl, inr, some, List, [], ◌∷◌, String,
}
use claim_ci.Value.{}
use claim_ci.Models.{
  is_caught, unreadable, malformed, no_records, uncaught, or_raise, or_raise-eq-ok, require,
}
use claim_ci.Parsing.{load_json}
use claim_ci.Parsing.Graph.{visit, validate_yaml_graph, all_levels}
use claim_ci.World.{
  World, Reading, loaded, refused, escaped, is_escaped, as_document, load_unique_yaml, as_mapping,
  load_config,
}
use claim_ci.Dataset.{hash_line, hash_lines, load_dataset, is_blank, split_lines}
use claim_ci.Models.Caught.{bind-caught, or_raise-caught, found-caught, require-caught}
use claim_ci.Parsing.Caught.{load_json-caught, visit-caught}
use claim_ci.Results.Caught.{as_mapping-caught}

as_document-caught : (r : Reading) → is_escaped r ≡ false → is_caught (as_document r) ≡ true
as_document-caught (loaded d) h = refl
as_document-caught refused h = refl
as_document-caught escaped h = cc

-- A config whose YAML raises nothing that `load_config` does not catch.
pub load_config-caught :
    (w : World) (path : String)
    → ((text : String) → w.read_text path ≡ some text → is_escaped (w.read_yaml text) ≡ false)
    → is_caught (load_config w path) ≡ true
unfolding load_config load_unique_yaml validate_yaml_graph
load_config-caught w path h =
    bind-caught (or_raise (w.read_text path) unreadable) _
      (or_raise-caught (w.read_text path) unreadable refl)
      λ text e.
        bind-caught (load_unique_yaml w text) as_mapping
          (bind-caught (as_document (w.read_yaml text)) _
            (as_document-caught (w.read_yaml text) (h text (or_raise-eq-ok _ unreadable e)))
            λ d f.
              bind-caught (visit all_levels d.children [] d.root []) _
                (visit-caught all_levels d.children [] d.root []) λ c g. refl)
          λ v g. as_mapping-caught v

hash_line-caught : (w : World) (line : String) → is_caught (hash_line w line) ≡ true
unfolding hash_line
hash_line-caught w line =
    bind-caught (or_raise (w.read_json line) malformed) _ (or_raise-caught _ malformed refl)
      λ raw e.
        bind-caught (load_json raw) _ (load_json-caught raw)
          λ sample f. or_raise-caught (w.hash_sample sample) malformed refl

hash_lines-caught : (w : World) (lines : List String) → is_caught (hash_lines w lines) ≡ true
unfolding hash_lines
hash_lines-caught w [] = refl
hash_lines-caught w (line ∷ lines) = elim (Bool-cases (is_blank line)) [
  | inl e ↦ rw e (hash_lines-caught w lines)
  | inr e ↦ rw e (
      bind-caught (hash_line w line) _ (hash_line-caught w line)
        λ digest f. bind-caught (hash_lines w lines) _ (hash_lines-caught w lines) λ ds g. refl)
]

-- A dataset whose path resolves.
pub load_dataset-caught :
    (w : World) (path : String)
    → is_some (w.resolve path) ≡ true
    → is_caught (load_dataset w path) ≡ true
unfolding load_dataset
load_dataset-caught w path h =
    bind-caught (or_raise (w.read_text path) unreadable) _ (or_raise-caught _ unreadable refl)
      λ text e.
        bind-caught (hash_lines w (split_lines text)) _ (hash_lines-caught w (split_lines text))
          λ hashes f.
            bind-caught (require (not (is_empty hashes)) no_records) _
              (require-caught _ no_records refl)
              λ u g.
                bind-caught (or_raise (w.resolve path) uncaught) _
                  (found-caught (w.resolve path) uncaught h) λ place i. refl
