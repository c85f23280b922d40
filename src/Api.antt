-- ===== src/Api.antt =====
-- The API client of ui/src/utils/ApiClient.js and the tokens of ui/src/utils/TokenStorage.js.
pub mod Tokens
pub mod Headers
pub mod Queue
pub mod Server
