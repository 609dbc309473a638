-- ===== src/Push.antt =====
-- network/protocol/push: uploading the chunks of a file to a provider.
pub mod Messages
pub mod Client
pub mod RoundTrip
pub mod Handler
pub mod Stream
pub mod Sound
pub mod Checks
pub mod Batches
pub mod Steps
pub mod Reading
pub mod Serving
pub mod Uploads
