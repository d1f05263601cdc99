-- ===== src/Streaming.antt =====
-- claimci/analysis/streaming_dataset.py and the parts of claimci/analysis/adapters/streaming.py and
-- claimci/analysis/artifact_source.py that it uses: dataset records that are read block by block,
-- indexed in a database of bounded size, and compared there.
pub mod Report
pub mod Lines
pub mod Framing
pub mod Store
pub mod Tables
pub mod Records
pub mod Scan
pub mod Indexing
pub mod Datasets
pub mod Context
pub mod Queries
pub mod Check
