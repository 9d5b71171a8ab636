-- ===== src/Range.antt =====
-- src/entropy/range_*.cpp and src/mffv1/state_transition.hpp: the adaptive binary range coder.
pub mod Transition
pub mod Contexts
pub mod Coder
pub mod Read
pub mod Encoder
pub mod Write
pub mod Finish
pub mod Prefix
pub mod Steps
pub mod Follow
pub mod Decide
pub mod Live
pub mod Codes
pub mod Symbols
pub mod Decisions
pub mod Trial
pub mod RoundTrip
pub mod Closing
pub mod Session
pub mod Start
pub mod Reset
mod Tests
