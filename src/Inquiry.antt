-- ===== src/Inquiry.antt =====
-- src/lib/inquiry-status-workflow.ts, src/lib/notification-retry-policy.ts and
-- src/lib/admin-inquiry-mutation-repository.ts: the life of an inquiry behind the public form, when
-- its notification is tried again, and what an administrator changes of it.
pub mod Workflow
pub mod Retry
pub mod Mutation
mod Tests
