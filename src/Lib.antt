-- ===== src/Lib.antt =====
-- zpp-cpp: PHP extensions in C++ on a wrapper library, zpp, around the Zend engine.
--
-- The parts and the files that model them:
--   Ucode8      src/zpp/ucode8.cpp: the UTF-8 decoder `ucode8Fwd` and encoder `utf32_str8`.
--   Str8        src/wcc/str8.cpp: the `Str8` text object and its iterator over code points, on Ucode8.
--   XmlChar     src/wcx/xmlchar.cpp: the XML 1.0 and 1.1 character classes and the search in tables.
--   StrPtr      src/zpp/str_ptr.cxx: comparison, views, searches and `str_replace` on zend strings.
--   Php         src/zpp/htab_ptr.cxx, htab_cow.cxx: the values and arrays of PHP, and the operations on
--               them that the other parts use.
--   Route       src/wcc/route.cpp: a route, its verbs, its serialised form.
--   RouteSet    src/wcc/route_set.cpp: the set of routes: compiling a route, filing it under its
--               pattern or its expression, the index by name. It calls Route and StrPtr.
--   RouteMatch  src/wcc/route_match.cpp: finding the route of a request, its arguments, and the class
--               and the method that its target names. It calls RouteSet, Route and Php.
--   SearchList  src/wcc/search_list.cpp: the list of directories and the search for a file in them.
--   Sql         src/wcd: the parts of an SQL statement and their texts (sql_ipart.cpp), tables and joins
--               (sql_isql.cpp), parameters (iparams.cpp, namedparams.cpp), and the conditions and the
--               statements (isql.cpp). Select, Change and Insert are the statements; they call Where,
--               Joins and Params. Reading is how SQL reads what is quoted. Where calls Emit, and Emit calls Literal, Operators and Params.
--               Clauses is the gathering of clauses in bindings.cpp: Store, Conditions and Others.
--   Marks       src/wcc/replace.cpp and the `unhive` of arrays and maps: the replacement of marks.
--   Hmap        src/wcc/hmap.cpp: the map object, on Php and Marks. Iterator is its iterator, by
--               the walk along an array of src/zpp/htab_walk.cxx (HtabWalk).
--   Strfns      src/wcc/strfns.cpp: names in camel case.
--   Cache       src/wcc/icachedata.cpp: an entry of a cache.
--   Services    src/wcc/services.cpp: the registry of services. Once, Depth and Single are about its
--               deferred closures, their counter, and its single objects.
--   Response    src/wcc/global_response.cpp: headers, status and content of an answer, and what is
--               sent: Headers, StatusLine and Sending. Codes is the table of messages.
--   UserSession src/wcc/userdata.cpp, usersession.cpp, isession.cpp: the user of a session. The user
--               data is an object of a heap, which the session and its store share. Data is the
--               user data, Store the session, Keys and Requests the methods.
--   Finder      src/wcc/finder.cpp: the file of a class by its name space, and lists of files.
--   Row         src/wcd/irow.cpp: the values of a row and those that it was read with.
--   XmlParse    src/wcx: the errors of the XML parser (errorstack.cpp), its items (itemreturn.cpp), and
--               munchSpace of parsecontext.cpp.
--   Common      names of the libraries, Boolean tests, lists, bytes, integers.
--   Tests       the results at concrete inputs.
--
-- How state and operations correspond: a C++ object is a record with one field for each member; a
-- method is a function from the record, and its arguments, to the new record and the result. A
-- `zend_string` is the list of its bytes; where the null pointer matters it is an `Option`. A thrown
-- exception or error is `none`; in Sql an error is a text beside the value, as in the source,
-- and a mark beside both says that a null pointer has been followed. Sizes
-- are below 2 ^ 31, the bound above which the casts of the source to `int` would change them. A
-- `char32_t` is a number.
--
-- Fuel: `StrPtr.str_replace` takes the number of rounds of its loop; one more than the subject has
-- bytes is enough for a search text that is not empty. The binary search of XmlChar takes the length
-- of its table, since each round makes the interval smaller. The search of
-- Finder for a name space takes the length of the name of the class, since each round goes back to an
-- earlier backslash. All else is structural recursion.
--
-- Parameters: the segments that the PCRE expression `rex_url` captures (`urlseg` in RouteSet), the
-- match of a compiled expression (`pcre` in RouteMatch), the matches of the expression of a mark
-- (`matches` in Marks) and of the names of Postgres (`matches` in Sql/Quoting), PHP's `url_decode`
-- and `array_merge`, the format "%d", the join of paths, the replacement of an extension and the
-- file test of `std::filesystem`, and `strtol` in `Ucode8.hex_str8`; in Sql the quoting of names,
-- which Postgres overrides, the format of numbers, PHP's conversion of a value to a text, and
-- `array_merge`. In Services they are PHP's tests and calls of values and the making of objects, in
-- Response the state of PHP's output, its event function and its encodings, in UserSession PHP's
-- session and the service of it, in Finder the file system, in Row the identity of arrays and objects.
-- `tolower` and `toupper` are those of the C locale.
--
-- Not modelled: reference counts and copy on write (an array or an object that is stored is a value,
-- so a later change through another reference is not seen), the registration of classes, constants and
-- methods with PHP, the reading of arguments, debug output, the database drivers, the requests, the
-- view, asset and dispatch classes, and the copies of md4c, tinyxml2 and toml.
pub mod Common
pub mod Ucode8
pub mod Str8
pub mod XmlChar
pub mod StrPtr
pub mod Php
pub mod Route
pub mod RouteSet
pub mod RouteMatch
pub mod SearchList
pub mod XmlParse
pub mod Finder
pub mod Marks
pub mod Hmap
pub mod Strfns
pub mod Cache
pub mod Services
pub mod Response
pub mod UserSession
pub mod Sql
pub mod Row
pub mod Tests
