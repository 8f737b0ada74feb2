-- ===== src/Weixin.antt =====
-- src/weixin: the WeChat channel's own library.
pub mod AesEcb
pub mod Connection
