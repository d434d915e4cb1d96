-- ===== src/Mux.antt =====
-- mux_v4.go: the compound procedure of NFS version 4.
pub mod State
pub mod Output
pub mod Sessions
pub mod Handles
pub mod Dispatch
pub mod Run
pub mod Procedures
pub mod Appends
pub mod Rewrites
pub mod Answers
pub mod Shapes
pub mod Files
pub mod Paths
pub mod Changes
pub mod OpenFiles
pub mod Access
pub mod ExtendedAttrs
pub mod Bodies
pub mod Attributes
pub mod SetAttr
pub mod ReadDir
pub mod OpenPlan
pub mod OpenNumbers
pub mod Opens
pub mod FileHandlers
pub mod FileReplies
pub mod AttrReplies
pub mod OpenReplies
pub mod ReadDirReplies
pub mod Handlers
pub mod Loop
pub mod Complete
pub mod Outcome
pub mod Endings
pub mod Compounds
pub mod Slots
pub mod Replay
pub mod Kept
pub mod Retry
pub mod Served
pub mod Returns
pub mod FileSwitch
pub mod Closes
