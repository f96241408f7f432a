-- ===== src/Lib.antt =====
-- notnets_grpc: gRPC over shared-memory queues.
--
-- A client channel and a server exchange unary calls as HTTP/1.1 messages that go, piece by piece,
-- through a pair of shared-memory queues of the C library libnotnets.
--
--   Text, Base64, Dict, Header  the parts of Go's standard library that the code relies on: ASCII
--                        case, decimal numbers, base64.URLEncoding, maps, http.Header. Texts are
--                        lists of bytes, and a byte is a number.
--   Metadata             toHeaders of utils.go; asMetadata and setMetadata of client.go. A Go map
--                        is a list of entries; theorems are about each order of them.
--   Contexts             packages context and grpc/metadata: a parameter, with laws.
--   Timeout              headersFromContext of utils.go, contextFromHeaders of server.go. A
--                        duration is an int64, and its product wraps.
--   Internal             internal/call_options.go and internal/transport_stream.go. What the
--                        options of a call point to is a store, so two options may share it.
--   Shm                  rpc_ffi.go over a record of the C functions, a parameter.
--   Transport            notnets_transport.go. A nil pointer is `none`, and a method call on it a
--                        panic.
--   Framing              the receive loops of client.go (Invoke) and server.go (serveRequests).
--                        Their fuel is a number of reads: one more than the bytes of the message is
--                        enough.
--   Backoff              the delays of server.go (Serve) and client.go (Dial).
--   Routing              the path of a request, in client.go (Invoke), and what server.go
--                        (handleMethod) takes from it.
--   Http                 what net/http and httputil write and read: request and response lines, header
--                        blocks, bodies of known length, and the 4096 bytes of a bufio.Reader. A
--                        body that is not in that buffer when the code resets the one below it is
--                        lost. Messages with a transfer encoding, which neither side writes, are
--                        taken for malformed. The codec is a parameter.
--   Client               Dial and Invoke of client.go. The fuel of Dial bounds its attempts.
--                        Client/Direct is the specification of a call: a direct call of the handler
--                        that is registered for the method.
--   Services, Errors     the lookups and the translation of errors of utils.go.
--   Server               the listener, the options, the constructor and the accept loop of
--                        server.go; handleMethod, in Server/Handling, and serveRequests, in
--                        Server/Requests. The accept loop is a fold over what its rounds meet: what
--                        it starts and how long it waits are recorded in its state. The loop on a
--                        connection is run for a number of messages.
--   TestService          channel_tests_service/test_service.go and MetadataNew, over an interface
--                        for a stream. An int32 is its 32 bits. TestService/Cases is testUnary of
--                        channel_tests_service/channel_test_cases.go, over the channel. The
--                        tests of the streaming methods there, which nothing calls, are not modelled.
--   SayService           the services of test_hello_service and chain_tests, with their generated
--                        stubs, handlers and descriptors. SayService/Chain is a call of one server
--                        by another, for a server that keeps no state.
--   Tests                runs at concrete inputs, and the theorems at inputs that meet their
--                        hypotheses.
--
-- A call on a shared object that holds a mutex from its start to its return is one step. Not
-- modelled: logging; streams over the channel, which does not have them; the other generated code,
-- and the programs that run tests and benchmarks.
--
-- A call goes so: Client makes the text of a request (Routing, Timeout, Metadata, Internal, Http), writes it
-- to a connection (Transport, Shm) and reads the answer (Framing). Server/Requests reads the text,
-- Server/Handling routes it to a handler (Routing, Services), which runs with a transport stream
-- (Internal), and writes the answer. The C library, packages context and metadata, the handler map,
-- credentials and the codec are records of operations that the definitions take, and the theorems name
-- what they need of them.
pub mod Prelude
pub mod Text
pub mod Base64
pub mod Dict
pub mod Header
pub mod Metadata
pub mod Contexts
pub mod Timeout
pub mod Internal
pub mod Shm
pub mod Transport
pub mod Framing
pub mod Backoff
pub mod Routing
pub mod Http
pub mod Services
pub mod Errors
pub mod Client
pub mod Server
pub mod TestService
pub mod SayService
pub mod Tests
