-- ===== src/Lib.antt =====
-- ClaimCI: a claim that a candidate experiment improves a metric over its baseline is audited from
-- the experiments' artifacts, and gets one of three verdicts.
--
-- An audit reads a YAML manifest, which names the metric, the least improvement, and for each of
-- the two experiments a config, a results file and two dataset splits. Each pair of artifacts is
-- loaded and checked; a check returns findings, a loader that raises ClaimCIError becomes a finding,
-- and the verdict is read off the findings' impacts.
--
-- Parts, and the files that model them:
--   Models, Models/Enums       claimci/models.py: enumerations, findings, summaries,
--                              coerce_direction. `Result` is a function that may raise ClaimCIError.
--   Value                      the values that parsers return, with Python's `==`, under which a
--                              Boolean is an integer and the order of a mapping does not count
--   Decimal, Decimal/*         decimal.Decimal: exact order, and operations at a precision
--   Floats, World              parameters: what is asked of binary floats, of the file system, of
--                              the JSON and YAML grammars, and of SHA-256
--   Parsing, Parsing/*         claimci/parsing.py: unique_json_object, validate_json_graph (walk),
--                              _validate_yaml_graph (visit, over a heap of containers with
--                              identities; `active` and `completed` are passed along)
--   Config, Config/*           claimci/config_check.py: _value is read, _multiply_exact,
--                              _at_least_ratio and _compute_proxies keep their names, and each rule
--                              of check_configs is a function in Config/Rules
--   Counter, Counter/*         collections.Counter as the dataset checks use it
--   Dataset, Dataset/*         claimci/dataset_check.py: load_dataset, check_dataset_leakage,
--                              check_evaluation_alignment
--   Results, Results/*         claimci/result_check.py: load_results, summarize_runs, _seed_findings,
--                              _metric_summary_comparison, check_results and
--                              check_reported_aggregates
--   Measurement, Measurement/* claimci/measurement.py: protocol components and identities, and
--                              compare_measurement_protocols (Drift); the order in which
--                              from_components is given components (Order)
--   Streaming, Streaming/*     claimci/analysis/streaming_dataset.py with what it uses of
--                              claimci/analysis/artifact_source.py and
--                              claimci/analysis/adapters/streaming.py: scan reports (Report),
--                              _binary_lines (Lines), _validate_record_graph and
--                              _parse_dataset_value (Records), ArtifactScan (Scan), _DatasetSpill
--                              (Store), _scan_dataset (Indexing is its try block, Datasets its
--                              handlers), the audit context (Context), and
--                              check_streaming_dataset_context of claimci/dataset_check.py (Check)
--   Audit, Audit/*             claimci/audit.py: _experiment_paths (Paths), load_research_spec
--                              (Spec), determine_verdict and audit_research (Research); where the
--                              loaders raise nothing uncaught (Caught, with Models/Caught,
--                              Parsing/Caught and Results/Caught)
--   Examples, Examples/*       concrete floats, a small file system, and runs on them
--
-- State and errors: most components keep no state between calls, so each is a function. A function
-- that raises ClaimCIError returns `err` with the place at which it is raised; the messages are left
-- out, as are the titles and explanations of findings. An exception that no handler of ClaimCIError
-- catches is `err uncaught`: it comes from yaml.load, from exists, or from resolving the path of a
-- dataset, and it ends the audit. The streaming scan keeps its state in
-- `Progress`, with the open file and the store, and a part of its try block ends in an `Outcome`; a
-- generator is the list of what it does until it is dropped. In the streaming modules `none` is an
-- exception that leaves the function.
--
-- Bounds: _validate_record_graph recurses on the number of nodes that its limit leaves, and
-- _validate_yaml_graph recurses on 257 levels, MAX_NESTING_DEPTH + 1, which is the depth at
-- which the code itself raises, so no fuel beyond the code's own bound is used. num_digits recurses
-- on the number itself, which is more than its digits. Decimals carry unbounded exponents: those
-- that come from floats and config numbers stay within the limits of a Python context. The default
-- context has 28 digits.
--
-- Not modelled: the streaming and the measurement contexts of audit_research, and audit_profiled;
-- claimci/benchmark_audit.py, the recovery of measurement protocols from configs with its source
-- bindings, the rest of claimci/analysis, claimci/review; what SQLite does with a batch, which is the
-- history `Database`; a DELETE that SQLite refuses; the descriptors and the identity of an opened
-- file, which are `stable`; the command line, the reports, the GitHub client and the file reads, which
-- are input and output.
pub mod Prelude
pub mod Decimal
pub mod Value
pub mod Models
pub mod Floats
pub mod Config
pub mod Counter
pub mod Parsing
pub mod World
pub mod Dataset
pub mod Measurement
pub mod Results
pub mod Streaming
pub mod Audit
mod Examples
