-- ===== src/Platform.antt =====
-- What the modules of api/internal/platform give to all the others: errors, transactions.
pub mod Apperr
pub mod Table
pub mod Inversion
