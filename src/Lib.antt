-- ===== src/Lib.antt =====
-- redisdal: a C++ client library for Redis over hiredis.
--
-- A call goes through several layers. `redis_client` (src/redis_client.cpp) calls a command of
-- `redis_cmd_ops` (src/redis_cmd_ops.cpp), which builds an argument vector and hands it to the
-- primitive `cmd_execv` of `redis_executor` (include/redisdal/redis_executor.hpp).
-- `sync_connection` (src/sync_connection.cpp) implements the primitive over hiredis and converts
-- the reply to an owning `cmd_reply` (include/redisdal/common.hpp), which the client decodes
-- (src/cmd_reply.cpp). A connection is opened from a URL (src/redis_config.cpp). Above the client,
-- `redis_template` (include/redisdal/redis_template.hpp) and the views that it owns
-- (include/redisdal/redis_operations.hpp) take typed keys and values, which they convert by
-- serializers (include/redisdal/serialization.hpp), and call any `kv_connection`
-- (include/redisdal/kv_connection.hpp), the interface of the client.
--
-- Files:
--   Prelude           shared names, Boolean tests, lists, signed integers
--   Text              byte strings; Text/Decimal: printing and reading of decimal numbers;
--                     Text/Contains: what a search finds
--   Errors            include/redisdal/exception.hpp and the standard exceptions, as values
--   Reply             `cmd_reply`: constructors and accessors; Reply/Decode: src/cmd_reply.cpp;
--                     Reply/WellFormed: the class invariant; Reply/Ensures: postconditions;
--                     Reply/Defined, Reply/Signed, Reply/RoundTrip: what holds of the decoders
--   Serialization     include/redisdal/serialization.hpp; Serialization/RoundTrip and
--                     Serialization/Refused: numbers that are read back, and that are refused
--   Exec              the executor interface, and stateful methods that may throw
--   CmdOps            src/redis_cmd_ops.cpp: CmdOps/Arguments and CmdOps/Vectors build argument
--                     vectors, CmdOps/Options has the option structures, and the other children
--                     have one definition per command; CmdOps/Accepts, CmdOps/Layout, CmdOps/AddLayout
--                     and CmdOps/ScriptKeys: which options are accepted and what is then sent
--   Client            src/redis_client.cpp, one definition per method (an overload has a longer
--                     name: `del_keys`, `hget_map`, `lpush_values`); Client/Methods: the family of
--                     all calls; Client/Contract and Client/Safe: what holds of every call
--   Config            src/redis_config.cpp; Config/Bounds: what the parser accepts;
--                     Config/RoundTrip: URLs that are written for a configuration
--   Hiredis           the structures of hiredis that are read, and its calls as a parameter
--   SyncConnection    src/sync_connection.cpp: SyncConnection/Convert (the conversion of replies),
--                     SyncConnection/Transport (execution, the constructor); SyncConnection/Sound,
--                     SyncConnection/Contract and SyncConnection/Handshake: what holds of them
--   KvConnection      include/redisdal/kv_connection.hpp; KvConnection/FromClient: `redis_client`
--                     as a connection
--   Operations        include/redisdal/operations.hpp, the interfaces of the views
--   Serializer        the strategy `serializer` and the loops over elements; Serializer/Lossless
--                     and Serializer/Defined: values that a serializer keeps, and serializers
--                     that return or throw
--   Local             a container of the caller, or a member, beside the state of a connection;
--                     Local/Maintains: predicates on it that calls keep
--   Containers        unordered containers at a key type with an equality; Collect and
--                     Collect/Caller: the loops that fill them
--   Template          include/redisdal/redis_template.hpp: key methods; Template/Scripts: the script
--                     cache, with Template/Scripts/Cache, Runs and Recovery on what it holds, and
--                     RedisScripts and Server on a server that loses scripts; Template/Views and
--                     Template/Entries: include/redisdal/redis_operations.hpp; Template/Facade: the
--                     views that a facade owns; Template/Methods, Template/Contract and
--                     Template/Safe: the family of all calls, and what holds of each over
--                     `redis_client`;
--                     Template/RoundTrip, Template/Strings, Template/Caller: values through all
--                     layers, the facade at strings, and containers of the caller
--   Tests             applications of the theorems at concrete values, and runs
--
-- Correspondence. A method that may throw and change the state behind a connection is a function
-- from a state to a result and a state; what happened before an exception is kept. Exceptions are
-- the constructors of `Error`; `undefined_behaviour` is no exception but stands for what C++ leaves
-- undefined (`*` of an empty optional, an index past a vector, more bytes than a string has with
-- its terminating NUL).
-- Strings are lists of bytes. Integers are unbounded where the source only passes them on, with
-- wrap-around written out where it converts them: `% 2 ^ 16` for a port, two's complement for the
-- unsigned view of a reply and for `static_cast` to an integral type. Unordered maps and sets are lists of their elements in the order of
-- iteration. A `double` is its 64-bit pattern.
--
-- A facade keeps its cache of scripts beside the state of its connection (`WithLocal`); a method that
-- fills a container of its caller has the container there, so that what it holds after an exception
-- is part of the model. Arguments of one C++ call are serialized from left to right, though the
-- source leaves their order open.
--
-- Parameters: hiredis (the record `Hiredis`) and the conversions of `double` to and from text (the
-- record `DoubleChars`). Of the standard library, `to_string`, `from_chars` for integers, `stoul`,
-- `tolower` in the "C" locale and the matches of the one regular expression are defined here as the
-- standard describes them. All loops are structural recursions over lists or reply trees, so
-- there is no fuel; the digits of a number are printed by recursion on `Acc`.
--
-- Not modelled: include/redisdal/kv_template.hpp, an interface that no class implements; the release
-- of replies and contexts; the forwarding of variadic arguments; tests and build files.
pub mod Prelude
pub mod Text
pub mod Errors
pub mod Reply
pub mod Serialization
pub mod Exec
pub mod CmdOps
pub mod Client
pub mod KvConnection
pub mod Serializer
pub mod Containers
pub mod Local
pub mod Collect
pub mod Operations
pub mod Template
pub mod Config
pub mod Hiredis
pub mod SyncConnection
pub mod Tests
