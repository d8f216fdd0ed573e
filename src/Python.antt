-- ===== src/Python.antt =====
-- What the program uses of Python: the dynamic values of a JSON payload, exceptions, and text.
pub mod Result
pub mod Text
pub mod Value
