-- ===== src/Database.antt =====
-- mapi/src/database: the columns of the tables that FRED reads, and the rows that they make.
pub mod Columns
pub mod Equations
pub mod Rows
