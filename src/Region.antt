-- ===== src/Region.antt =====
-- include/qvcache/pca_utils.h: regions of the projected space and their hit thresholds.
pub mod Key
pub mod Ball
pub mod Theta
