-- ===== src/UserSession.antt =====
-- `UserData`, `UserSession` and `ISession` of src/wcc/userdata.cpp, usersession.cpp and isession.cpp: the user of
-- a session with its roles, keys and messages, and when they are read from and written to the session. A
-- `UserData` object is a number into the heap, so that the session and its store share it. What PHP and the
-- service locator do is given by parameters. `none` is a method called on no object.
pub mod Data
pub mod Store
pub mod Keys
pub mod Requests
pub mod Roles
pub mod Found
pub mod Kept
