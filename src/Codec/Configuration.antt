-- ===== src/Codec/Configuration.antt =====
-- Configurations: src/mffv1/configuration_parser.cpp, src/codec/configuration_record_writer.cpp and
-- src/codec/configuration_record_parser.cpp.
pub mod Tables
pub mod Mirror
pub mod Contexts
pub mod Runs
pub mod SetRoundTrip
pub mod StatesRoundTrip
pub mod TableRoundTrip
pub mod Parser
pub mod Writer
pub mod StateSetsRoundTrip
pub mod Accepted
pub mod ParameterSteps
pub mod EntropyRoundTrip
pub mod TailRoundTrip
pub mod RoundTrip
pub mod RangeContexts
pub mod Record
mod Tests
pub mod RecordParity
pub mod RecordRoundTrip
pub mod RecordVersion
