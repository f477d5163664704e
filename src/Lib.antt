-- ===== src/Lib.antt =====
-- nekoq-component, a set of Go components: generators of ids, a write-ahead log, stores for
-- configurations and secrets, and wrappers of databases and of HTTP servers. This library models the
-- id generator, the write-ahead log, the configuration service from its clients to its table, the
-- permissions, and the checksums and sealed texts of the secret service.
--
-- The parts and their files.
--   * Base: what all modules share. Numbers are native naturals; a Go integer of w bits wraps with
--     `% 2 ^ w`; an int64 is kept as its 64 bits where the code reinterprets it. A Go string is a
--     list of bytes, and only ASCII strings are meant. A Go map is an association list (Map), the
--     pair of a value and an error is Result, slices.Sort of strings is Sort.
--   * Hex: encoding/hex, as the code uses it.
--   * IdGen: utility/idgen/id.go. `next` and `next_n` are IdGen.Next and IdGen.NextN, explicit in the
--     generator's state and in the clock readings: the list of readings that the waiting loop
--     tillNextMillisecond takes is its fuel, which is enough as soon as one of them is later.
--     Ids is the layout of an id, Order and Batch are about runs of the two operations.
--   * Wal: db/alpha/replication/wal.go and model.go. Position, Entry, Reader and Names are the parts
--     of the file format; Log is the state of Wal and its operations over a file system that is a
--     parameter (FileSystem: a record of operations, with the laws that the results rely on; MemFs is
--     an instance). The loop of readLastPos has fuel one above the file's length, as each round but
--     the last takes a byte at least. Contents, Torn, Writes and Recovery are about
--     files and histories of writes.
--   * ConfigApi: configure/configapi. The protocol's values and Selectors: `cache` renders the
--     selectors' name, `fill` parses it. Fill, Blank and Cache are about the two; Signature is a
--     configuration's signature.
--   * ConfigServer: configure/configserver/server.core.go and version.go. The module itself has
--     channels and selectorsStore with its methods; Server has the server's state, its map of
--     selectors and RetrieveOrWait, in the two steps that its locks make; Pump has one round of
--     pumpLoop on the events read, and dumpFromPump. Stores and channels are heap addresses, as a
--     cancel function keeps a pointer to its store. A panic and a send that blocks are errors of
--     Stop. Notify, Room, Rounds, Waiting, Delivery and Reply are about what clients are sent,
--     Selecting about the stores of selectors, CfgKey about a store's keys, Panic about two rounds,
--     Serving about what a request for one configuration finds after a round.
--   * ConfigHttp: configure/configserver/server.go over server.write.go. Each handler is a function
--     from what it reads of the request to the response it writes; what other goroutines do while the
--     retrieving handler waits, and whether its channel or its timer comes first, are arguments. The
--     codec (cbor) and the data writer are records of operations. Status, Retrieving and Writes are
--     about the handlers.
--   * ConfigClient: configure/configclient/client.go. `process_round` is one round of processLoop; the
--     exchange with a server is an argument, which Rounds fills with the server's handler. Versions
--     is about the versions that a round leaves, Requirements about callbacks over any run; Env is
--     client.special.go.
--   * ConfigStore: configure/cfgimpl/datawriter.go, the SQL statements as functions on a table; what
--     the database answers besides rows (errors, the advisory lock, the commit) is a Session. Pump is
--     datapump.go: the dump's loop retries without end, so its fuel is the list of its trials, which
--     is enough when two more than there are rows work. Ordering and Dump are about the dump, Saving,
--     Written and Saved about one save, Scanning and Deleting about what the scan sees of it,
--     Invariant and History about all saves and deletes.
--   * Publishing: a save over HTTP, through the table, the scan and a round of the server, up to a
--     request over HTTP.
--   * Permissions: configure/permissions and configure/secretaddon/jwttool.go. The module has the
--     sets and the check of a token's claims, over the verifier of tokens as a parameter; Registry is
--     the table of the secret service's permissions, Sets and Verify are about the check.
--   * Secret: KeySets is the set of keys with its checksums (configure/secretapi/keygen.go), over Crc,
--     which is hash/crc32 bit by bit; Sealed is the text form of sealed data, Loading and Provider
--     are the local provider (configure/secret/unseal.local.go), over the loading of a key file and
--     the cipher as parameters. An int64 has at most 19 digits, which is the fuel of
--     `decimal`; RoundTrip is about the text form, Latest about the provider of key files.
--   * Jwt: configure/secretaddon/addontool.go, over the storage of keys, the text of private keys
--     and the JWT library as records of operations. Pem makes the second one from the libraries as
--     configure/secretapi/pem.go does; KeyTypes is configure/secretapi/store.go; Mapping is about the
--     two mappings of keys, KeyIds about the text of a key's id, Tokens about a token from its
--     signing to its verification.
--   * Granting: a token from its signing with permissions to the check of them.
--   * Keys: the generators of keys (configure/secretapi/keygen.go) and the conversion of private keys
--     (cipher.raw.go), over the random source and the libraries of keys; Cipher is the cipher tool
--     (cipher.go), over the storage of data keys as a record of operations. Generating is about
--     generated keys, Rotation about the tool on a storage that keeps its keys.
--   * Storage: the data keys of configure/secretimpl/secret.pg.go and secret.pg.utils.go, each SQL
--     statement a function on the tables; what the database answers besides rows is a DatabaseAnswers
--     for each call of StoreL2DataKey. The versions of a key count its rotations and are not wrapped at
--     2^63. Sealing is about sealing with a level-1 key set, Rows about the chosen rows, Versions
--     and Keeping about one call, and Rotations makes this storage the cipher tool's.
--
-- How they interact. The configuration server reads events from a data pump, keeps the
-- configurations of each pair of selectors in a store, and answers a client's request at once or with
-- a channel on which the next save of a requested key is sent. A request's selectors and an event's
-- meet in the names that ConfigApi renders. The write API's handlers call the data writer, which
-- gives a row the next sequence number; the pump finds it by that number. A client asks with the
-- versions that it received last. The check of permissions verifies a token with the addon tool. The
-- cipher tool keeps its keys in the storage, which seals them with a level-1 key set.
-- The log and the id generator are used by themselves.
--
-- What is not modelled. Goroutines are sequences of whole steps: a section under a lock is one step,
-- and the channel by which Wal.Write hands its data to WriteLoop is a call. Closing of handles,
-- logging, limits of allocation, read errors other than the end of a file, and the sleep between two
-- rounds are left out. The order of a range over a map is the order of the association list, and an
-- argument of `cache_in`. A commit that fails is taken to leave the rows as they were. The starting
-- and stopping of servers and pools, the container of configclient/client.adv.go, the tool of
-- certificates, the storage of key sets and certificates, the server of secrets and the database
-- wrappers are not part of the library.
mod Base
pub mod Hex
pub mod IdGen
pub mod Wal
pub mod ConfigApi
pub mod ConfigServer
pub mod ConfigHttp
pub mod ConfigClient
pub mod ConfigStore
pub mod Publishing
pub mod Granting
pub mod Permissions
pub mod Secret
pub mod Jwt
pub mod Keys
pub mod Storage
