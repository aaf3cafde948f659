-- ===== src/Translation.antt =====
-- Translations between payment protocols, pkg/translation: the conversion of amounts (amount.go) and
-- the bindings of a translation (translation.go). A text is its bytes; TrimSpace and ToUpper are those
-- of ASCII.
pub mod Currency
pub mod Amount
pub mod Digits
pub mod Exchange
pub mod RoundTrip
pub mod Exact
pub mod Spec
pub mod Apply
pub mod Written
pub mod Checked
pub mod Stops
pub mod Fields
pub mod Targets
