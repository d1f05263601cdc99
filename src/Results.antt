-- ===== src/Results.antt =====
-- claimci/result_check.py: the raw runs of an experiment, their summary, and the claimed improvement.
mod Numbers
mod Runs
mod Seeds
pub mod Loading
pub mod Compare
pub mod Check
pub mod Claim
pub mod Independence
pub mod Gates
pub mod Aggregates
pub mod Verified
pub mod Caught
unfoldable pub use Numbers.{is_finite, finite_number, decimal_number, finite_float, summarize_runs}
unfoldable pub use Runs.{load_results, read_run, read_runs, claimed_of}
pub use Runs.{LoadedResults, values_of, seeds_of}
unfoldable pub use Seeds.{
  missing_indices, present_seeds, duplicate_seeds, distinct_seeds, sort_seeds, seed_findings,
  count_seed,
}
pub use Numbers.{if_finite}
