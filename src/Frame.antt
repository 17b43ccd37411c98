-- ===== src/Frame.antt =====
-- What the pallets take from the FRAME libraries and offer each other: the currency, origins, the
-- interface of the attestation settler, and deposits held in reserve.
pub mod Currency
pub mod Escrow
pub mod Origin
pub mod Settler
pub mod Completion
pub mod Ledger
