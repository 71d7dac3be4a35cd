-- ===== src/Oss.antt =====
-- src/oss.rs: object keys, content types and uploads. The S3 client (aws-sdk-s3) is the
-- environment.
pub mod Date
pub mod Calendar
pub mod Key
pub mod Segments
pub mod Upload
pub mod Multipart
pub mod Cut
pub mod Parts
pub mod Abort
pub mod ContentType
pub mod Presign
pub mod Objects
pub mod Stored
