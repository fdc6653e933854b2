-- ===== src/Tests.antt =====
-- The results at concrete inputs, a module for each part of the program.
mod Ucode8
mod Str8
mod XmlChar
mod StrPtr
mod Route
mod RouteSet
mod RouteMatch
mod SearchList
mod Sql
mod UserSession
mod Row
mod Finder
mod Response
mod Services
mod Hmap
