-- ===== src/Rca/Scoring.antt =====
-- The scores of groups of anomalies as candidate causes, their ranking, and the bias by the sentiment
-- of a KPI (internal/rca/scoring.go), and the alignment of dimensions (dimension_scorer.go).
mod Defs
mod Rank
mod RankLaws
mod Order
mod Ranking
mod Bias
mod Kept
mod Alignment
mod AlignmentLaws
mod Rows
unfoldable pub use Defs.*
unfoldable pub use Rank.*
unfoldable pub use Alignment.*
pub use RankLaws.*
pub use Order.*
pub use Ranking.*
pub use Bias.*
pub use Kept.*
pub use AlignmentLaws.*
pub use Rows.*
