-- ===== src/Parsing/Graph.antt =====
-- `_validate_yaml_graph` of claimci/parsing.py, on containers with identities.
-- A parsed document is a heap of containers, each known by its identity; `children` lists what the
-- loop visits in a container, for a mapping each key before its value.
pub mod Forest
pub mod Acyclic
use claim_ci.Prelude.{
  ℕ, zero, suc, ◌≡◌, refl, Bool, true, false, ◌||◌, ◌==◌, Option, none, some, List, [], ◌∷◌, any,
  if◌then◌else◌, is_some,
}
use claim_ci.Models.{Result, ok, err, malformed, ◌>>=◌}

pub data Node : Type 0 where
  leaf : Node
  container : ℕ → Node

abbrev pub Children : Type 0
Children = ℕ → List Node

abbrev pub mem : ℕ → List ℕ → Bool
mem i = any (λ j. i == j)

-- A visit takes the set `completed` and returns it grown.
abbrev pub Visit : Type 0
Visit = Node → List ℕ → Result (List ℕ)

-- `for item in value: visit(item)`
unfoldable pub visit_all : Visit → List Node → List ℕ → Result (List ℕ)
visit_all visit [] completed = ok completed
visit_all visit (n ∷ ns) completed = visit n completed >>= visit_all visit ns

abbrev pub complete : ℕ → List ℕ → Result (List ℕ)
complete i completed = ok (i ∷ completed)

-- `levels` is MAX_NESTING_DEPTH + 1 less the depth. `active` holds the containers that are being
-- visited; the `finally` clause restores it by itself, since it is an argument.
unfoldable pub visit : ℕ → Children → List ℕ → Visit
unfolding visit_all
visit zero children active n completed = err malformed
visit (suc levels) children active leaf completed = ok completed
visit (suc levels) children active (container i) completed =
    let below =
      visit_all (visit levels children (i ∷ active)) (children i) completed >>= complete i in
    if mem i active then err malformed else if mem i completed then err malformed else below

abbrev pub all_levels : ℕ
all_levels = 257

unfoldable pub validate_yaml_graph : Children → Node → Result (List ℕ)
unfolding visit
validate_yaml_graph children n = visit all_levels children [] n []

-- `extra: &loop [*loop]`
abbrev loop : Children
loop i = container i ∷ []

cycle_rejected : validate_yaml_graph loop (container 0) ≡ err malformed
unfolding validate_yaml_graph
cycle_rejected = refl

-- One container below two keys.
abbrev shared : Children
shared zero = leaf ∷ container 1 ∷ leaf ∷ container 1 ∷ []
shared (suc i) = []

alias_rejected : validate_yaml_graph shared (container 0) ≡ err malformed
unfolding validate_yaml_graph
alias_rejected = refl
