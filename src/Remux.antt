-- ===== src/Remux.antt =====
-- ts: the packets of a stream routed to the collectors and the media pipelines, and put back in order.
pub mod PmtTransformer
pub mod Media
pub mod Stream
pub mod Remuxer
pub mod Process
