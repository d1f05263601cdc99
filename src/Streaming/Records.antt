-- ===== src/Streaming/Records.antt =====
-- One record of a dataset stream: `_validate_record_graph` of claimci/analysis/adapters/streaming.py, and
-- `_parse_dataset_value` of claimci/analysis/streaming_dataset.py. `none` where nothing is raised.
pub mod Bounded
use claim_ci.Prelude.{
  ℕ, zero, suc, Bool, true, false, not, ◌&&◌, ◌||◌, leb, ltb, ◌==◌, all, Option, none, some, List,
  [], ◌∷◌, ◌++◌, map, String, if◌then◌else◌,
}
use claim_ci.Counter.Ordered.{le}
use claim_ci.Models.{Result, ok, err}
use claim_ci.Value.{finite, Value, float, str, list, mapping, Items, nil, item, Fields, end, field}
use claim_ci.Parsing.{decode}
use claim_ci.World.{World}
use claim_ci.Streaming.Report.{ScanState, ScanReason, Stop, StreamingLimits}

abbrev pub stop : ScanState → ScanReason → Stop
stop s r = record { state = s; reason = r }

abbrev pub is_container : Value → Bool
is_container (list xs) = true
is_container (mapping f) = true
is_container _ = false

-- `isinstance(current, float) and not math.isfinite(current)`
abbrev pub is_nonfinite : Value → Bool
is_nonfinite (float (finite m e)) = false
is_nonfinite (float f) = true
is_nonfinite _ = false

-- The text of a key: a mapping of a JSON document has no other keys.
abbrev pub key_text : Value → String
key_text (str s) = s
key_text _ = ""

abbrev pub Entries : Type 0
Entries = List (Value × Value)

unfoldable pub insert_entry : Value × Value → Entries → Entries
unfolding le
insert_entry e [] = e ∷ []
insert_entry e (f ∷ entries) =
    let later = insert_entry e entries in
    if le (key_text e.0) (key_text f.0) then e ∷ f ∷ entries else f ∷ later

-- The entries in the order of `sorted(current)`.
unfoldable pub sorted_entries : Fields → Entries
unfolding insert_entry
sorted_entries end = []
sorted_entries (field k v rest) = insert_entry (k, v) (sorted_entries rest)

unfoldable pub items_of : Items → List Value
items_of nil = []
items_of (item v xs) = v ∷ items_of xs

-- each key before its value
unfoldable pub interleaved : Entries → List Value
interleaved [] = []
interleaved ((k, v) ∷ entries) = k ∷ v ∷ interleaved entries

unfoldable pub children_of : Value → List Value
unfolding items_of interleaved sorted_entries
children_of (list xs) = items_of xs
children_of (mapping f) = interleaved (sorted_entries f)
children_of _ = []

-- What a visit of a node leads to.
pub data Visit : Type 0 where
  rejects : Stop → Visit
  expands : List Value → Visit

unfoldable pub visit_node : StreamingLimits → Value → ℕ → Visit
unfolding children_of
visit_node l v depth =
    if is_nonfinite v
    then rejects (stop ScanState.failed ScanReason.malformed)
    else if not (is_container v)
    then expands []
    else if ltb l.max_depth depth
    then rejects (stop ScanState.incomplete_limit ScanReason.depth_limit)
    else expands (children_of v)

abbrev pub at_depth : ℕ → Value → Value × ℕ
at_depth depth v = (v, depth)

-- The loop over the stack, whose top is the head. The number counts the nodes that may still be
-- visited: the code counts upwards and raises past the limit.
unfoldable pub visit_stack : ℕ → StreamingLimits → List (Value × ℕ) → Option Stop
unfolding visit_node
visit_stack left l [] = none
visit_stack zero l (node ∷ stack) = some (stop ScanState.incomplete_limit ScanReason.node_limit)
visit_stack (suc left) l ((v, depth) ∷ stack) = elim (visit_node l v depth) [
  | rejects reason ↦ some reason
  | expands children ↦ visit_stack left l (map (at_depth (suc depth)) children ++ stack)
]

abbrev pub root_depth : Value → ℕ
root_depth v = if is_container v then 1 else 0

unfoldable pub validate_record_graph : StreamingLimits → Value → Option Stop
unfolding visit_stack
validate_record_graph l v = visit_stack l.max_nodes_per_record l ((v, root_depth v) ∷ [])

-- What the standard library does with the bytes of a file: UTF-8 decoding, which may fail, and
-- SHA-256, of the file alone and after the prefix of the trace.
pub record Codec : Type 0 where
  pub decode_utf8 : List ℕ → Option String
  pub sha256 : List ℕ → String
  pub trace_sha256 : List ℕ → String

-- A value, or the stop that ends the scan.
pub data Parsed : Type 0 where
  stopped : Stop → Parsed
  parsed : Value → Parsed

abbrev malformed_record : Parsed
malformed_record = stopped (stop ScanState.failed ScanReason.malformed)

abbrev checked_value : StreamingLimits → Value → Parsed
checked_value l v = elim (validate_record_graph l v) [ none ↦ parsed v | some s ↦ stopped s ]

abbrev decoded_value : StreamingLimits → Result Value → Parsed
decoded_value l (err raised) = malformed_record
decoded_value l (ok v) = checked_value l v

unfoldable pub parse_text : World → StreamingLimits → String → Parsed
unfolding decode validate_record_graph
parse_text w l text = elim (w.read_json text) [
  | none ↦ malformed_record
  | some raw ↦ decoded_value l (decode raw)
]

-- `_parse_dataset_value`
unfoldable pub parse_dataset_value : World → Codec → StreamingLimits → List ℕ → Parsed
unfolding parse_text
parse_dataset_value w c l raw = elim (c.decode_utf8 raw) [
  | none ↦ stopped (stop ScanState.failed ScanReason.invalid_utf8)
  | some text ↦ parse_text w l text
]

-- `not raw.strip()`, for bytes: ASCII white space only
abbrev pub is_blank_bytes : List ℕ → Bool
is_blank_bytes = all (λ b. (leb 9 b && leb b 13) || b == 32)
