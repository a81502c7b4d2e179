-- ===== src/Mastery.antt =====
-- The mastery model: packages/mastery/engine.py and packages/mastery/weights.py over the contracts of
-- packages/domain/mastery.py.
pub mod State
pub mod Weights
pub mod Decay
pub mod Apply
pub mod Consistent
pub mod Tagging
pub mod ReviewTests
pub mod ReviewSteps
pub mod Reviews
pub mod Priors
