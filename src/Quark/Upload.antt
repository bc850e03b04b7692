-- ===== src/Quark/Upload.antt =====
-- pan/driver/quark: the upload of a file, `UploadFile` of driver.go and the upload requests of
-- methods.go.
pub mod Requests
pub mod Parts
pub mod Whole
