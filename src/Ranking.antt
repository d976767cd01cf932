-- ===== src/Ranking.antt =====
-- src/analytics/subscriber_ranking.py, video_ranking.py and history_ranking.py, with the result
-- builders and the reducer that call them.
pub mod Order
pub mod Subscribers
pub mod Leaderboards
pub mod Accounts
pub mod Placement
pub mod Ordered
pub mod Observed
pub mod Views
pub mod VideoCatalog
pub mod VideoRanking
pub mod VideoViews
pub mod Built
pub mod CatalogVideos
pub mod Baseline
pub mod Reducer
pub mod Grouping
pub mod Results
pub mod Readings
pub mod Handler
pub mod ViewGrowth
mod Tests
