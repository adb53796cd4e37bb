-- ===== src/Tests.antt =====
-- Examples on concrete inputs: a chain and an encoding for the parameters of the development, and each
-- theorem with hypotheses applied where they hold.
pub mod Text
pub mod Encoding
pub mod Chain
pub mod Data
pub mod Market
pub mod Module
pub mod Fees
pub mod Flow
pub mod Start
pub mod Wire
pub mod Messages
pub mod Api
pub mod Wiring
