-- ===== src/Samples.antt =====
-- Tests of the models, and the theorems at concrete inputs.
mod Releases
mod Formats
mod Queue
mod Pipeline
mod Bus
mod Channels
mod Stores
mod Titles
mod Watching
mod Requests
mod Upkeep
mod Downloading
mod Refreshing
