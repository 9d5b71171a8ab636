-- ===== src/Syntax.antt =====
-- src/mffv1/: the prediction, the colour transform, the context model and the stream parameters.
pub mod Profile
pub mod Predictor
pub mod ColorTransform
pub mod ContextModel
pub mod Stream
mod Tests
