-- ===== src/Examples.antt =====
-- The theorems at concrete inputs, on fractions, and tests of the text functions.
mod Weighing
mod Pricing
mod Chain
mod Serving
mod Fetching
mod Running
mod Reading
mod Text
