-- ===== src/Examples.antt =====
-- The theorems at concrete inputs, and runs of the model.
pub mod PlainEvp
mod NestedRuns
mod CryptoRuns
mod ServerRuns
mod NetRuns
mod RaceRuns
mod RecodeRuns
mod CommandRuns
pub mod PlainWire
pub mod WireRuns
pub mod JourneyRuns
mod MachineRuns
mod LoaderRuns
pub mod PlainPkcs11
mod HsmRuns
mod RotateRuns
mod RoundRuns
mod DownloadRuns
