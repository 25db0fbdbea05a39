-- ===== src/Tests.antt =====
-- Runs of the models at concrete inputs, and the theorems applied to them.
pub mod Spending
pub mod Web
pub mod Requesting
pub mod Approving
pub mod Cleaning
pub mod Browser
pub mod Browsing
pub mod TabLists
pub mod Chatting
pub mod Hosting
pub mod Caching
pub mod Readers
