-- ===== src/Response.antt =====
-- `Response` of src/wcc/global_response.cpp: the headers, the status line and the content of an answer, and
-- what is sent of them. The map of the headers is its array. The format of numbers, the event queue,
-- the functions of PHP that send and encode, and the last part of a path are parameters. Status codes are
-- not negative.
pub mod Headers
pub mod StatusLine
pub mod Sending
pub mod Codes
pub mod Status
pub mod Twice
