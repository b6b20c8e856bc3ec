-- ===== src/Go.antt =====
-- What the program uses of the Go language and its strconv package: calls that return an error or
-- panic, signed integers, and numbers and Booleans as text.
pub mod Run
pub mod Int
pub mod Strconv
pub mod Json
pub mod Act
pub mod Keeps
