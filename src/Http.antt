-- ===== src/Http.antt =====
-- The answers of HTTP to an exception, `HttpExceptionFilter` of src/common/filters/http-exception.filter.ts.
pub mod Filter
pub mod Problems
