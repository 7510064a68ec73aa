-- ===== src/Uploads.antt =====
-- v2/src/footballai_v2/storage/upload_service.py: uploads that go to the object storage directly.
pub mod Characters
pub mod Service
pub mod Repeats
