-- ===== src/Tests.antt =====
-- Runs of the modelled code on small inputs, and an instance of each theorem that has a condition.
mod Queue
mod Binary
mod Stream
mod Choice
mod Message
mod Tickets
mod Fields
mod Requests
mod Lanes
mod Expressions
mod Rules
mod Amounts
mod Translations
