-- ===== src/Admission.antt =====
-- workers/admission-service: the admission of public inquiries.
pub mod Authority
pub mod Lifecycle
