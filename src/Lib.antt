-- ===== src/Lib.antt =====
-- libinv: a library for objects with attributes, links and a place in a hierarchy, kept in a
-- Kyoto Cabinet tree database and offered over JSON-RPC.
--
-- The parts, and the files that model them:
--
-- Key (source/include/key.hh): keys are lists of tokens, joined by a separator of their class.
--
-- Index (source/include/index.hh): the identity of an object, type and id, its index record, and
-- the generation of ids.
--
-- Association (source/include/association.hh), Container (container.hh) and Hierarchical
-- (hierarchical.hh): the mixins of an object. Each keeps sets or maps of what it knows and of what
-- is to be written and removed; get loads from the database by a cursor, commit writes to it. The
-- C++ members m_add, m_remove, m_attrs and so on are the fields of a record of the part's name,
-- and the member functions are functions with the name of the source, on that record, on the
-- database, or on both.
--
-- Mixins and Object (object.hh): the mixins of an object as a list of interfaces, with the calls,
-- readings, written forms and requests that pass over all of them; and the object over them, with
-- the requests that it builds, the handlers of their responses, and a part of an object as a value
-- that is loaded, changed and committed. Object.Serve makes an object for a call, and there `broken`
-- is what comes of a method name for which the source has no defined result. Object.Session gets
-- and commits an object over a session, Object.Objects makes the objects that links and the
-- hierarchy name. SharedVector (shared_vector.hh) gets many objects by one batch.
--
-- Mode (mode.hh) and Modes (object.hh): the access modes of an object, by handle.
--
-- JsonRpc, Namespace (source/jsonrpc.cc) and Rpc (rpc.hh, datamodel.hh): the check of requests and
-- responses, the making of requests and replies, the cursor over a method's name, and the server's
-- answers to calls. Client (rpc.hh): the requests of a client, alone and in a batch, and the
-- callbacks of their responses.
--
-- Global (global.hh): the objects that are listed under one index. Sessions (source/rpc.cc): the
-- table of sessions; what std::remove_if leaves behind the end that it returns is a parameter.
--
-- FileMap (source/filemap.cc): a file mapped into memory; the system calls are a parameter. Http
-- (source/http_server.cc, http_client.cc): a body that arrives in pieces and a reply that is read in
-- pieces. Types (stdtypes.hh): the types of the standard objects; Types.Coded puts GTIN and ISBN
-- together from an index, modes, links and attributes, and there `endless` is what the search for
-- an id comes to where none is free.
--
-- Workqueue (workqueue.hh): the queue of work and its workers, as a relation of steps with events.
--
-- Exception (exception.hh and the *_ex.hh files): the exceptions with their codes; `aborted` is a
-- failed assertion of rapidjson, which nothing catches. Exec: a result or
-- an exception, with a state that keeps what was written before a throw.
--
-- Stored: the forms of the keys in the database.
--
-- Prelude: lists for std::set and std::map with their laws, orders, texts.
--
-- Extern: Boost, Kyoto Cabinet, rapidjson and libuuid as records of operations with the laws that
-- their documentation states; Extern.Concrete has one implementation of each that is used, and
-- Examples runs the theorems on them.
--
-- Where the parts meet: the mixins call Index for the object's path and Key for the keys of their
-- records, and write to one database; Rpc parses by JsonRpc, finds the method by Namespace, and
-- answers with JsonRpc's responses. The update calls of Object decode a batch of texts into a mixin
-- and commit it; Client sends what Object's requests build, and Http carries both.
--
-- Bounds and fuel. A text is a list of character codes without a NUL. A mode is nine bits,
-- below 512. upward_ids takes fuel: one for each object of the chain above, and one for its end, are
-- enough. generate_id takes the list of the ids that it draws. A number is printed in at most eleven
-- rounds, enough for 32 bits. A reply is read whole by more requests than it has bytes. An identity
-- is clean where its type begins with a letter, its id is not empty, and neither holds a separator:
-- the program escapes nothing.
--
-- Not modelled: down(db) of the hierarchy, which does not compile where it is called, get_mode of an
-- object, which nothing calls, the locks (each operation is one step), rapidjson's allocators,
-- output to std::cout, the settings of libcurl, gnutls and libmicrohttpd, waiting for threads and
-- futures, the smart pointers and factories, the classes Owner, Item and Category as whole objects,
-- the text of JSON values (a law says which text is read back), and the unit tests.
pub mod Prelude
pub mod Extern
pub mod Exception
pub mod Exec
pub mod Key
pub mod Index
pub mod Stored
pub mod Association
pub mod Container
pub mod Hierarchical
pub mod Mode
pub mod Modes
pub mod JsonRpc
pub mod Namespace
pub mod Rpc
pub mod Workqueue
pub mod Mixins
pub mod Object
pub mod Client
pub mod Global
pub mod FileMap
pub mod SharedVector
pub mod Sessions
pub mod Http
pub mod Types
pub mod Examples
