-- ===== src/Approval.antt =====
-- core/approval_gate.py (tokens) and service/approval.py (the approval records).
pub mod Platform
pub mod Token
pub mod Service
mod Tests
